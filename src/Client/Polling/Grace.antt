-- ===== src/Client/Polling/Grace.antt =====
-- The grace period of the polling thread.
use aeron_cluster_client_cpp.Prelude.{
  ℕ, ◌-◌, ◌<◌, lt→ltb, ◌≡◌, refl, ap, ap₂, ◌∙◌, List, [], ◌∷◌, Bool, true, false, not, ◌&&◌, ◌||◌,
  ltb, if◌then◌else◌, Option, none, some, Bool-cases, inl, inr, arith,
}
use aeron_cluster_client_cpp.Prelude.Int.{ℤ}
use aeron_cluster_client_cpp.Session.Send.{is_connected}
use aeron_cluster_client_cpp.Client.Link.{
  ConnectionState, disconnected, connected, same_state, no_active_images,
}
use aeron_cluster_client_cpp.Client.State.{Client, client_is_connected}
use aeron_cluster_client_cpp.Client.Polling.{
  Round, Watch, lose, connection_grace_period, health_check_interval, after_poll, check_health,
  polling_round, go_on, polling_rounds, polling_worker,
}

-- What poll_messages makes of a client in these rounds.
abbrev pub poll_all : List Round → Client → Client
poll_all [] c = c
poll_all (r ∷ rounds) c = poll_all rounds (r.poll_messages c).0

-- Each round begins less than 15 seconds after the one before it, at a client that polls, in the
-- state CONNECTED and with a connected session manager.
unfoldable pub StaysUp : ℕ → List Round → Client → Type 0
StaysUp before [] c = Unit
StaysUp before (r ∷ rounds) c =
    (c.link.polling_active ≡ true)
    × (same_state c.link.connection_state connected ≡ true)
    × (is_connected r.session_up c.session ≡ true)
    × (r.now - before < connection_grace_period)
    × StaysUp r.now rounds (r.poll_messages c).0

-- A round in the grace period only polls, and the watch keeps its start.
after_poll_grace :
    (t : ℤ) (r : Round) (w : Watch) (x : Client × ℕ)
    → (v : Watch) × ((after_poll t true r w x ≡ (x.0, some v))
        × (v.connection_start_time ≡ w.connection_start_time))
unfolding after_poll
after_poll_grace t r w (c, n) = elim (Bool-cases (ltb 0 n)) [
  | inl e ↦ (record w { last_activity = r.now }, (rw e refl, refl))
  | inr e ↦ (w, (rw e refl, refl))
]

either {ℓ} : {A : Type ℓ} (b : Bool) (x : A) → (if b then x else x) ≡ x
either true x = refl
either false x = refl

check_health_grace :
    (t : ℤ) (r : Round) (w : Watch) (c : Client)
    → (v : Watch) × ((check_health t true r w c ≡ ((r.poll_messages c).0, some v))
        × (v.connection_start_time ≡ w.connection_start_time))
unfolding check_health
check_health_grace t r w c =
    let checked : Watch = record w { last_health_check = r.now } in
    elim (Bool-cases (ltb (r.now - w.last_health_check) health_check_interval)) [
      | inl e ↦
          let (v, (same, start)) = after_poll_grace t r w (r.poll_messages c) in
          (v, (rw e same, start))
      | inr e ↦
          let (v, (same, start)) = after_poll_grace t r checked (r.poll_messages c) in
          (v, (rw e (either _ _ ∙ same), start))
    ]

not_disconnected :
    (s : ConnectionState) → same_state s connected ≡ true → same_state s disconnected ≡ false
not_disconnected s h = ground arith

in_grace_period {ℓ} :
    {A : Type ℓ} (a b d : Bool) (x y z : A)
    → a ≡ true
    → b ≡ false
    → (if a then (if b then x else y) else if d then z else y) ≡ y
in_grace_period a b d x y z e h = rw (e, h) refl

fresh_start :
    (a b d : Bool) (x y : ℕ) → a ≡ true → b ≡ true → d ≡ true → (if a && b && d then x else y) ≡ x
fresh_start a b d x y e h k = rw (e, h, k) refl

polling_round_grace :
    (t : ℤ) (r : Round) (w : Watch) (c : Client)
    → same_state c.link.connection_state connected ≡ true
    → is_connected r.session_up c.session ≡ true
    → r.now - w.connection_start_time < connection_grace_period
    → (v : Watch) × ((polling_round t r w c ≡ ((r.poll_messages c).0, some v))
        × (v.connection_start_time ≡ r.now))
unfolding polling_round
polling_round_grace t r w c state session soon =
    let early = lt→ltb _ _ soon in
    let up = not_disconnected c.link.connection_state state in
    let (v, (same, start)) =
      check_health_grace t r (record w { connection_start_time = r.now }) c in
    (
      v,
      (
        in_grace_period _ _
              (not (client_is_connected r.session_up r.egress_up c) || not r.has_images) (c, none) _
              (lose no_active_images c, none) early up
            ∙ ap₂
                (λ (g : Bool) (s : ℕ).
                  check_health t g r (record w { connection_start_time = s }) c)
                early (fresh_start _ _ _ r.now w.connection_start_time state early session)
            ∙ same,
        start,
      ),
    )

when_active {ℓ} : {A : Type ℓ} (b : Bool) (x y : A) → b ≡ true → (if b then x else y) ≡ x
when_active true x y h = refl
when_active false x y h = cc

stays_polling :
    (t : ℤ) (before : ℕ) (rounds : List Round) (w : Watch) (c : Client)
    → w.connection_start_time ≡ before
    → StaysUp before rounds c
    → polling_rounds t rounds w c ≡ (poll_all rounds c, true)
unfolding polling_rounds StaysUp
stays_polling t before [] w c e h = refl
stays_polling t before (r ∷ rounds) w c e (active, state, session, soon, later) =
    let (v, (same, start)) = polling_round_grace t r w c state session (rw e soon) in
    let next = λ (u : Watch) (d : Client). polling_rounds t rounds u d in
    when_active c.link.polling_active _ (c, false) active
    ∙ ap (λ (x : Client × Option Watch). go_on x next) same
    ∙ stays_polling t r.now rounds v (r.poll_messages c).0 start later

-- As long as each round of the polling thread begins less than 15 seconds after the one before it and
-- finds the client polling, in the state CONNECTED and with a connected session manager, the thread
-- does nothing but poll and goes on, whatever the stall timeout and however long nothing has come:
-- neither a stalled delivery, nor a subscription without images, nor a failed health check ever
-- ends it.
pub polling_worker-poll_all :
    (disconnect_timeout : ℤ) (begin : ℕ) (rounds : List Round) (c : Client)
    → StaysUp begin rounds c
    → polling_worker disconnect_timeout begin rounds c ≡ (poll_all rounds c, true)
unfolding polling_worker
polling_worker-poll_all t begin rounds c h = stays_polling t begin rounds _ c refl h
