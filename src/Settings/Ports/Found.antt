-- ===== src/Settings/Ports/Found.antt =====
-- What the search for a port finds, and that it ends.
use aeron_cluster_client_cpp.Prelude.{
  ℕ, zero, suc, ◌+◌, ◌-◌, ◌≤◌, ◌<◌, ◌≡◌, ◌≢◌, refl, sym, ap, ◌∙◌, le_refl, ◌⊎◌, inl, inr, List, [],
  ◌∷◌, Bool, true, false, not, ◌&&◌, ◌||◌, ◌==◌, ==_iff, Bool-cases, length, if◌then◌else◌, arith,
}
use aeron_cluster_client_cpp.Settings.Ports.{
  PortDraw, Search, port_found, none_available, drawing, is_tried, serves, search_port,
  find_available_port,
}

-- The draws are ports of the range.
abbrev pub AreInRange : ℕ → ℕ → List PortDraw → Type 0
AreInRange low high [] = Unit
AreInRange low high (d ∷ draws) = (low ≤ d.port) × (d.port ≤ high) × AreInRange low high draws

-- The port was drawn; it was drawn and could be bound; it was drawn and could not.
abbrev pub is_drawn : ℕ → List PortDraw → Bool
is_drawn p [] = false
is_drawn p (d ∷ draws) = d.port == p || is_drawn p draws

abbrev pub is_served : ℕ → List PortDraw → Bool
is_served p [] = false
is_served p (d ∷ draws) = (d.port == p && serves d) || is_served p draws

abbrev pub is_refused : ℕ → List PortDraw → Bool
is_refused p [] = false
is_refused p (d ∷ draws) = (d.port == p && not (serves d)) || is_refused p draws

without : ℕ → List ℕ → List ℕ
without p [] = []
without p (q ∷ l) = let rest = without p l in if q == p then rest else q ∷ rest

is_tried-without : (p q : ℕ) (l : List ℕ) → p ≢ q → is_tried q (without p l) ≡ is_tried q l
unfolding is_tried without
is_tried-without p q [] h = refl
is_tried-without p q (r ∷ l) h = ground (arith, is_tried-without p q l h)

length-without-le : (p : ℕ) (l : List ℕ) → length (without p l) ≤ length l
unfolding without
length-without-le p [] = ground arith
length-without-le p (r ∷ l) = ground (arith, length-without-le p l)

length-without-lt : (p : ℕ) (l : List ℕ) → is_tried p l ≡ true → length (without p l) + 1 ≤ length l
unfolding without is_tried
length-without-lt p [] h = cc
length-without-lt p (r ∷ l) h = ground (arith, length-without-lt p l, length-without-le p l)

-- A list with every number from `low` on has at least as many elements.
covering :
    (n low : ℕ) (l : List ℕ)
    → ((p : ℕ) → low ≤ p → p < low + n → is_tried p l ≡ true)
    → n ≤ length l
covering zero low l h = omega arith
covering (suc n) low l h =
    let less = length-without-lt low l (h low (le_refl low) (omega arith)) in
    let rest = covering n (low + 1) (without low l) (λ p a b.
      is_tried-without low p l (λ e. absurd (omega (arith, e)))
      ∙ h p (omega arith) (omega arith)) in
    omega (arith, less, rest)

-- No number stands twice, and all lie in a range.
AreApart : ℕ → ℕ → List ℕ → Type 0
AreApart low n [] = Unit
AreApart low n (p ∷ l) = (low ≤ p) × (p < low + n) × (is_tried p l ≡ false) × AreApart low n l

without_absent : (p : ℕ) (l : List ℕ) → is_tried p l ≡ false → without p l ≡ l
unfolding without is_tried
without_absent p [] h = refl
without_absent p (q ∷ l) h = ground (arith, without_absent p l)

length-without-ge :
    (p low n : ℕ) (l : List ℕ) → AreApart low n l → length l ≤ length (without p l) + 1
unfolding without AreApart
length-without-ge p low n [] h = omega arith
length-without-ge p low n (q ∷ l) h =
    ground (arith, without_absent p l, ==_iff q p, length-without-ge p low n l h.3)

without-AreApart :
    (n low : ℕ) (l : List ℕ) → AreApart low (suc n) l → AreApart (low + 1) n (without low l)
unfolding without AreApart
without-AreApart n low [] h = tt
without-AreApart n low (q ∷ l) h =
    ground (arith, is_tried-without low q l, without-AreApart n low l h.3)

apart_le : (n low : ℕ) (l : List ℕ) → AreApart low n l → length l ≤ n
unfolding AreApart
apart_le zero low [] h = omega arith
apart_le zero low (q ∷ l) h = absurd (omega (arith, h.0, h.1))
apart_le (suc n) low l h = omega (
  arith,
  apart_le n (low + 1) (without low l) (without-AreApart n low l h),
  length-without-ge low low (suc n) l h,
)

-- A full list has every number of the range.
full :
    (n low p : ℕ) (l : List ℕ)
    → AreApart low n l
    → n ≤ length l
    → low ≤ p
    → p < low + n
    → is_tried p l ≡ true
unfolding AreApart
full n low p l h enough a b = elim (Bool-cases (is_tried p l)) [
  | inl e ↦ e
  | inr e ↦ absurd (omega (arith, apart_le n low (p ∷ l) (a, b, e, h)))
]

module _ (low n : ℕ) where
  found_lem :
      (draws : List PortDraw) (tried : List ℕ) (p : ℕ)
      → AreInRange low (low + n) draws
      → search_port (n + 1) draws tried ≡ port_found p
      → (low ≤ p) × (p ≤ low + n) × (is_served p draws ≡ true)
  unfolding search_port
  found_lem [] tried p h e = ground arith
  found_lem (d ∷ draws) tried p h e =
      ground (arith, found_lem draws tried p h.2, found_lem draws (d.port ∷ tried) p h.2)

  exhausted_lem :
      (draws : List PortDraw) (tried : List ℕ) (p : ℕ)
      → AreInRange low (low + n) draws
      → AreApart low (n + 1) tried
      → search_port (n + 1) draws tried ≡ none_available
      → low ≤ p
      → p ≤ low + n
      → (is_tried p tried || is_refused p draws) ≡ true
  unfolding search_port is_tried AreApart
  exhausted_lem [] tried p h k e a b = ground (arith, full (n + 1) low p tried k)
  exhausted_lem (d ∷ draws) tried p h k e a b = ground (
    arith,
    full (n + 1) low p tried k,
    exhausted_lem draws tried p h.2 k,
    exhausted_lem draws (d.port ∷ tried) p h.2,
  )

  ends_lem :
      (draws : List PortDraw) (tried : List ℕ)
      → ((p : ℕ) → low ≤ p → p < low + (n + 1) → (is_tried p tried || is_drawn p draws) ≡ true)
      → search_port (n + 1) draws tried ≢ drawing
  unfolding search_port is_tried
  ends_lem [] tried h e =
      let enough = covering (n + 1) low tried (λ p a b. ground (arith, h p a b)) in
      ground (arith, enough)
  ends_lem (d ∷ draws) tried h e = elim (Bool-cases (is_tried d.port tried)) [
    | inl known ↦
        let on = ends_lem draws tried (λ p a b. ground (arith, h p a b, ==_iff d.port p)) in
        ground (arith, on)
    | inr new ↦
        let on = ends_lem draws (d.port ∷ tried) (λ p a b. ground (arith, h p a b)) in
        ground (arith, on)
  ]

-- Every one of the `m` ports from `low` on was drawn and could not be bound.
pub AreRefused : ℕ → ℕ → List PortDraw → Type 0
AreRefused zero low draws = Unit
AreRefused (suc m) low draws = (is_refused low draws ≡ true) × AreRefused m (low + 1) draws

refused_all :
    (m low : ℕ) (draws : List PortDraw)
    → ((p : ℕ) → low ≤ p → p < low + m → is_refused p draws ≡ true)
    → AreRefused m low draws
unfolding AreRefused
refused_all zero low draws h = tt
refused_all (suc m) low draws h = (
  h low (le_refl low) (omega arith),
  refused_all m (low + 1) draws (λ p a b. h p (omega arith) (omega arith)),
)

Search-cases : (s : Search) → ((p : ℕ) × (s ≡ port_found p)) ⊎ (s ≡ none_available) ⊎ (s ≡ drawing)
Search-cases (port_found p) = inl (p, refl)
Search-cases none_available = inr (inl refl)
Search-cases drawing = inr (inr refl)

-- Where every port of the range is drawn at some time, and nothing outside of it, the loop of
-- find_available_port ends: it returns a port of the range that could be bound when it was drawn, or
-- it throws, and then every port of the range was drawn and could not be bound.
pub find_available_port_ends :
    (low n : ℕ) (draws : List PortDraw)
    → AreInRange low (low + n) draws
    → ((p : ℕ) → low ≤ p → p ≤ low + n → is_drawn p draws ≡ true)
    → ((p : ℕ) × ((find_available_port low (low + n) draws ≡ port_found p)
          × (low ≤ p)
          × (p ≤ low + n)
          × (is_served p draws ≡ true)))
      ⊎ ((find_available_port low (low + n) draws ≡ none_available) × AreRefused (n + 1) low draws)
unfolding find_available_port is_tried AreApart
find_available_port_ends low n draws h all =
    let count : low + n - low + 1 ≡ n + 1 = omega arith in
    let same = ap (λ (m : ℕ). search_port m draws []) count in
    elim (Search-cases (find_available_port low (low + n) draws)) [
      | inl (p, e) ↦
          let (a, b, c) = found_lem low n draws [] p h (sym same ∙ e) in inl (p, (e, a, b, c))
      | inr (inl e) ↦ inr (
        e,
        refused_all (n + 1) low draws
            (λ p a b. exhausted_lem low n draws [] p h tt (sym same ∙ e) a (omega arith)),
      )
      | inr (inr e) ↦
          absurd (ends_lem low n draws [] (λ p a b. all p a (omega arith)) (sym same ∙ e))
    ]
