-- ===== src/Orders/Portfolio/Refinement.antt =====
-- The portfolio against a function from tokens to balances.
use aeron_cluster_client_cpp.Prelude.{
  ◌≡◌, refl, ap, ap₂, ◌∙◌, Bytes, List, [], ◌∷◌, Bool, true, false, bytes_eq, bytes_eq_iff, Option,
  none, some, if◌then◌else◌, arith,
}
use aeron_cluster_client_cpp.Prelude.Int.{ℤ}
use aeron_cluster_client_cpp.Orders.{Doubles}
use aeron_cluster_client_cpp.Orders.Portfolio.{
  Balance, Portfolio, find_balance, put_balance, erase_balance, get_balance, sum_usd,
  recalculate_total_value, update_balance, removed, remove_balance,
}

module _ {D : Type 0} where
  -- No token stands twice.
  abbrev pub AreDistinct : List (Balance D) → Type 0
  AreDistinct [] = Unit
  AreDistinct (b ∷ l) = (find_balance b.token l ≡ none) × AreDistinct l

  find_balance-put_balance :
      (b : Balance D) (t : Bytes) (l : List (Balance D))
      → find_balance t (put_balance b l) ≡ (if bytes_eq b.token t then some b else find_balance t l)
  unfolding find_balance put_balance
  find_balance-put_balance b t [] = refl
  find_balance-put_balance b t (a ∷ l) = ground (
    arith,
    bytes_eq_iff a.token b.token,
    bytes_eq_iff a.token t,
    bytes_eq_iff b.token t,
    find_balance-put_balance b t l,
  )

  put_balance-AreDistinct :
      (b : Balance D) (l : List (Balance D)) → AreDistinct l → AreDistinct (put_balance b l)
  unfolding find_balance put_balance
  put_balance-AreDistinct b [] h = (refl, tt)
  put_balance-AreDistinct b (a ∷ l) h = ground (
    arith,
    bytes_eq_iff a.token b.token,
    bytes_eq_iff b.token a.token,
    find_balance-put_balance b a.token l,
    put_balance-AreDistinct b l h.1,
  )

  find_balance-erase_balance :
      (k t : Bytes) (l : List (Balance D))
      → AreDistinct l
      → find_balance t (erase_balance k l) ≡ (if bytes_eq k t then none else find_balance t l)
  unfolding find_balance erase_balance
  find_balance-erase_balance k t [] h = ground arith
  find_balance-erase_balance k t (a ∷ l) h = ground (
    arith,
    bytes_eq_iff a.token k,
    bytes_eq_iff a.token t,
    bytes_eq_iff k t,
    find_balance-erase_balance k t l h.1,
  )

  erase_balance-AreDistinct :
      (k : Bytes) (l : List (Balance D)) → AreDistinct l → AreDistinct (erase_balance k l)
  unfolding find_balance erase_balance
  erase_balance-AreDistinct k [] h = tt
  erase_balance-AreDistinct k (a ∷ l) h = ground (
    arith,
    bytes_eq_iff k a.token,
    find_balance-erase_balance k a.token l h.1,
    erase_balance-AreDistinct k l h.1,
  )

-- The calls that change a portfolio, an update with its time.
pub data Op (D : Type 0) : Type 0 where
  update : ℤ → Balance D → Op D
  remove : Bytes → Op D

-- What a user sees: the balance of each token, if any.
abbrev pub View : Type 0 → Type 0
View D = Bytes → Option (Balance D)

abbrev pub is_some {ℓ} : {A : Type ℓ} → Option A → Bool
is_some none = false
is_some (some a) = true

-- The same calls on a view, with the answers of the removals.
unfoldable pub replay : {D : Type 0} → List (Op D) → View D → View D × List Bool
replay [] f = (f, [])
replay (update now b ∷ ops) f = replay ops (λ t. if bytes_eq b.token t then some b else f t)
replay (remove k ∷ ops) f =
    let rest = replay ops (λ t. if bytes_eq k t then none else f t) in
    (rest.0, is_some (f k) ∷ rest.1)

module _ (doubles : Doubles) where
  unfoldable pub run :
      List (Op doubles.Double) → Portfolio doubles.Double → Portfolio doubles.Double × List Bool
  unfolding update_balance remove_balance
  run [] p = (p, [])
  run (update now b ∷ ops) p = run ops (update_balance doubles now b p)
  run (remove k ∷ ops) p =
      let q = remove_balance doubles k p in let rest = run ops q.0 in (rest.0, q.1 ∷ rest.1)

  -- One balance for a token, and the total of what is there.
  pub record IsKept (p : Portfolio doubles.Double) : Type 0 where
    pub distinct : AreDistinct p.balances
    pub totalled : p.total_usd_value ≡ sum_usd doubles doubles.nought p.balances

  -- A portfolio and a view that agree.
  Shows : Portfolio doubles.Double → View doubles.Double → Type 0
  Shows p f = (t : Bytes) → get_balance t p ≡ f t

  update_balance-IsKept :
      (now : ℤ) (b : Balance doubles.Double) (p : Portfolio doubles.Double)
      → IsKept p
      → IsKept (update_balance doubles now b p)
  unfolding update_balance recalculate_total_value
  update_balance-IsKept now b p h = record {
    distinct = put_balance-AreDistinct b p.balances h.distinct;
    totalled = refl;
  }

  update_balance-Shows :
      (now : ℤ) (b : Balance doubles.Double) (p : Portfolio doubles.Double)
      (f : View doubles.Double)
      → Shows p f
      → Shows (update_balance doubles now b p) (λ t. if bytes_eq b.token t then some b else f t)
  unfolding update_balance recalculate_total_value get_balance Shows
  update_balance-Shows now b p f h t = ground (arith, find_balance-put_balance b t p.balances, h t)

  -- A removal by what the search has found.
  removal :
      (k : Bytes) (p : Portfolio doubles.Double) (o : Option (Balance doubles.Double))
      → find_balance k p.balances ≡ o
      → IsKept p
      → (q : Portfolio doubles.Double) → q.balances ≡ erase_balance k p.balances
      → IsKept q
      → IsKept (removed doubles o p q).0
        × ((t : Bytes)
            → find_balance t (removed doubles o p q).0.balances
              ≡ (if bytes_eq k t then none else find_balance t p.balances))
        × ((removed doubles o p q).1 ≡ is_some o)
  removal k p none e h q same kept = (h, (λ t. ground (arith, bytes_eq_iff k t, e)), refl)
  removal k p (some b) e h q same kept = (
    kept,
    (λ t. ap (find_balance t) same ∙ find_balance-erase_balance k t p.balances h.distinct),
    refl,
  )

  remove_balance-IsKept :
      (k : Bytes) (p : Portfolio doubles.Double) (f : View doubles.Double)
      → IsKept p
      → Shows p f
      → IsKept (remove_balance doubles k p).0
        × Shows (remove_balance doubles k p).0 (λ t. if bytes_eq k t then none else f t)
        × ((remove_balance doubles k p).1 ≡ is_some (f k))
  unfolding remove_balance recalculate_total_value get_balance Shows
  remove_balance-IsKept k p f h s =
      let q : Portfolio doubles.Double = record p {
        balances = erase_balance k p.balances;
        total_usd_value = sum_usd doubles doubles.nought (erase_balance k p.balances);
      } in
      let kept : IsKept q = record {
        distinct = erase_balance-AreDistinct k p.balances h.distinct;
        totalled = refl;
      } in
      let r = removal k p (find_balance k p.balances) refl h q refl kept in
      (r.0, (λ t. r.1 t ∙ ground (arith, s t)), r.2 ∙ ap is_some (s k))

  -- From a portfolio with one balance for a token and with the total of its balances, after any calls
  -- of update_balance and remove_balance get_balance finds for every token what a function from
  -- tokens to balances gives after the same calls; each remove_balance answers whether the function
  -- had a balance; and the portfolio still has one balance for a token and the total of its balances.
  pub run-replay :
      (ops : List (Op doubles.Double)) (p : Portfolio doubles.Double) (f : View doubles.Double)
      → IsKept p
      → ((t : Bytes) → get_balance t p ≡ f t)
      → IsKept (run ops p).0
        × ((t : Bytes) → get_balance t (run ops p).0 ≡ (replay ops f).0 t)
        × ((run ops p).1 ≡ (replay ops f).1)
  unfolding run replay Shows
  run-replay [] p f h s = (h, s, refl)
  run-replay (update now b ∷ ops) p f h s =
      run-replay ops (update_balance doubles now b p) _ (update_balance-IsKept now b p h)
        (update_balance-Shows now b p f s)
  run-replay (remove k ∷ ops) p f h s =
      let (kept, shows, answer) = remove_balance-IsKept k p f h s in
      let (a, b, c) = run-replay ops (remove_balance doubles k p).0 _ kept shows in
      (a, b, ap₂ ◌∷◌ answer c)
