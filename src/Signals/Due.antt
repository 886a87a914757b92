-- ===== src/Signals/Due.antt =====
-- Which clients a signal disconnects, and how often.
use aeron_cluster_client_cpp.Prelude.{
  ℕ, ◌+◌, ◌≡◌, refl, sym, ap, ◌∙◌, List, [], ◌∷◌, ◌++◌, append_assoc, append-nil, Bool, true, false,
  ◌==◌, ==_iff, length, if◌then◌else◌, arith,
}
use aeron_cluster_client_cpp.Signals.{
  Registry, empty_registry, locks, register_client, remove_client, unregister_client, expire,
  valid_clients, Tally, disconnect_each, disconnect_all_clients,
}

pub data Step : Type 0 where
  registers unregisters expires : ℕ → Step

unfoldable pub run_steps : List Step → Registry → Registry
unfolding register_client unregister_client
run_steps [] r = r
run_steps (registers c ∷ steps) r = run_steps steps (register_client c r)
run_steps (unregisters c ∷ steps) r = run_steps steps (unregister_client c r)
run_steps (expires c ∷ steps) r = run_steps steps (expire c r)

-- How often the client is registered since it was last unregistered, as long as it has an owner.
-- `n` is that number before the steps.
unfoldable pub due : ℕ → Bool → ℕ → List Step → ℕ
due c owned n [] = if owned then n else 0
due c owned n (registers d ∷ steps) = due c owned (if d == c then n + 1 else n) steps
due c owned n (unregisters d ∷ steps) = due c owned (if d == c then 0 else n) steps
due c owned n (expires d ∷ steps) = due c (if d == c then false else owned) n steps

abbrev pub times : ℕ → List ℕ → ℕ
times c [] = 0
times c (d ∷ l) = if d == c then times c l + 1 else times c l

times-append : (c : ℕ) (l m : List ℕ) → times c (l ++ m) ≡ times c l + times c m
times-append c [] m = omega arith
times-append c (d ∷ l) m = ground (arith, times-append c l m)

times-remove_client :
    (c d : ℕ) (expired l : List ℕ)
    → locks expired c ≡ true
    → times c (remove_client d expired l) ≡ (if d == c then 0 else times c l)
unfolding remove_client
times-remove_client c d expired [] h = ground arith
times-remove_client c d expired (e ∷ l) h =
    ground (arith, times-remove_client c d expired l h, ==_iff e c, ==_iff e d, ==_iff d c)

times-valid_clients :
    (c : ℕ) (expired l : List ℕ)
    → times c (valid_clients expired l) ≡ (if locks expired c then times c l else 0)
unfolding valid_clients
times-valid_clients c expired [] = ground arith
times-valid_clients c expired (e ∷ l) = ground (arith, times-valid_clients c expired l, ==_iff e c)

due_lem :
    (c : ℕ) (steps : List Step) (r : Registry) (n : ℕ)
    → (locks r.expired c ≡ true → times c r.clients ≡ n)
    → times c (valid_clients (run_steps steps r).expired (run_steps steps r).clients)
      ≡ due c (locks r.expired c) n steps
unfolding run_steps due register_client unregister_client
due_lem c [] r n h = ground (arith, times-valid_clients c r.expired r.clients, h)
due_lem c (registers d ∷ steps) r n h =
    due_lem c steps (register_client d r) (if d == c then n + 1 else n)
      (λ e. ground (arith, h e, times-append c r.clients (d ∷ [])))
due_lem c (unregisters d ∷ steps) r n h =
    due_lem c steps (unregister_client d r) (if d == c then 0 else n)
      (λ e. ground (arith, h e, times-remove_client c d r.expired r.clients e))
due_lem c (expires d ∷ steps) r n h =
    due_lem c steps (expire d r) n (λ e. ground (arith, h))
    ∙ ap (λ (b : Bool). due c b n steps) (ground arith)

tallied :
    (b : Bool) (c : ℕ) (t : Tally)
    → let called = t.called ++ (c ∷ []) in
      let next : Tally =
        if b
        then record t { called = called; failed_count = t.failed_count + 1 }
        else record t { called = called; disconnected_count = t.disconnected_count + 1 } in
      (next.called ≡ called)
      × (next.disconnected_count + next.failed_count ≡ t.disconnected_count + t.failed_count + 1)
tallied true c t = (refl, omega arith)
tallied false c t = (refl, omega arith)

disconnect_each_lem :
    (fails : ℕ → Bool) (l : List ℕ) (t : Tally)
    → ((disconnect_each fails l t).called ≡ t.called ++ l)
      × ((disconnect_each fails l t).disconnected_count + (disconnect_each fails l t).failed_count
          ≡ t.disconnected_count + t.failed_count + length l)
unfolding disconnect_each
disconnect_each_lem fails [] t = (sym (append-nil t.called), omega arith)
disconnect_each_lem fails (c ∷ l) t =
    let called = t.called ++ (c ∷ []) in
    let failed : Tally = record t { called = called; failed_count = t.failed_count + 1 } in
    let done : Tally = record t {
      called = called;
      disconnected_count = t.disconnected_count + 1;
    } in
    let next = if fails c then failed else done in
    let (a, b) = disconnect_each_lem fails l next in
    let (same, count) = tallied (fails c) c t in
    (
      a ∙ ap (λ (k : List ℕ). k ++ l) same ∙ append_assoc t.called (c ∷ []) l,
      omega (arith, b, count),
    )

-- After any registrations, unregistrations and ends of ownership, a termination signal calls the
-- `disconnect` of each client exactly as often as the client was registered since it was last
-- unregistered, and not at all where no owner is left, whichever calls throw; each call counts as
-- succeeded or as failed.
pub disconnect_all_clients-due :
    (fails : ℕ → Bool) (steps : List Step) (c : ℕ)
    → (times c (disconnect_all_clients fails (run_steps steps empty_registry)).called
        ≡ due c true 0 steps)
      × ((disconnect_all_clients fails (run_steps steps empty_registry)).disconnected_count
            + (disconnect_all_clients fails (run_steps steps empty_registry)).failed_count
          ≡ length (disconnect_all_clients fails (run_steps steps empty_registry)).called)
unfolding disconnect_all_clients
disconnect_all_clients-due fails steps c =
    let r = run_steps steps empty_registry in
    let none_yet : Tally = record { called = []; disconnected_count = 0; failed_count = 0 } in
    let (called, count) = disconnect_each_lem fails (valid_clients r.expired r.clients) none_yet in
    (
      ap (times c) called ∙ due_lem c steps empty_registry 0 (λ e. refl),
      omega (arith, count, ap (λ (l : List ℕ). length l) called),
    )
