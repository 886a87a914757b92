-- ===== src/Orders/Validity.antt =====
-- Which orders pass Order::validate.
use aeron_cluster_client_cpp.Prelude.{
  ◌≡◌, refl, sym, ap, ◌∙◌, ◌≢◌, ◌↔◌, ◌⊎◌, inl, inr, Bytes, List, [], ◌∷◌, ◌++◌, Bool, true, false,
  not, ◌&&◌, bytes_eq, bytes_eq_iff, is_empty, str, Option, none, some, arith,
}
use aeron_cluster_client_cpp.Prelude.Int.{ℤ}
use aeron_cluster_client_cpp.Orders.{
  Doubles, Order, is_valid_side, is_valid_order_type, is_valid_time_in_force, error_if, is_none,
  lacks_stop_price, validate,
}

abbrev collect : List (Bool × Bytes) → List Bytes
collect [] = []
collect ((test, text) ∷ checks) = error_if test text (collect checks)

abbrev AreFalse : List (Bool × Bytes) → Type 0
AreFalse [] = Unit
AreFalse ((test, text) ∷ checks) = (test ≡ false) × AreFalse checks

collect-AreFalse : (checks : List (Bool × Bytes)) → collect checks ≡ [] → AreFalse checks
collect-AreFalse [] h = tt
collect-AreFalse ((true, text) ∷ checks) h = cc
collect-AreFalse ((false, text) ∷ checks) h = (refl, collect-AreFalse checks h)

AreFalse-collect : (checks : List (Bool × Bytes)) → AreFalse checks → collect checks ≡ []
AreFalse-collect [] h = refl
AreFalse-collect ((true, text) ∷ checks) h = cc (h.0)
AreFalse-collect ((false, text) ∷ checks) h = AreFalse-collect checks h.1

is_empty_iff : (b : Bytes) → (is_empty b ≡ false) ↔ (b ≢ [])
is_empty_iff b = ground arith

true_of_not : (b : Bool) → not b ≡ false → b ≡ true
true_of_not true h = refl
true_of_not false h = cc

module _ (doubles : Doubles) where
  -- The price is not at most zero.
  abbrev pub IsPositive : doubles.Double → Type 0
  IsPositive price = doubles.le price doubles.nought ≡ false

  -- The order has the prices that its type asks for.
  pub data IsPriced (o : Order doubles.Double) : Type 0 where
    market : o.order_type ≡ str "MARKET" → IsPriced o
    limit : o.order_type ≡ str "LIMIT" → IsPositive o.limit_price → IsPriced o
    stop :
        (price : doubles.Double)
        → o.order_type ≡ str "STOP"
        → o.stop_price ≡ some price
        → IsPositive price
        → IsPriced o
    stop_limit :
        (price : doubles.Double)
        → o.order_type ≡ str "STOP_LIMIT"
        → o.stop_price ≡ some price
        → IsPositive price
        → IsPositive o.limit_price
        → IsPriced o

  -- How long the order stands.
  pub data IsTimed (o : Order doubles.Double) : Type 0 where
    good_till_cancelled : o.time_in_force ≡ str "GTC" → IsTimed o
    immediate_or_cancel : o.time_in_force ≡ str "IOC" → IsTimed o
    fill_or_kill : o.time_in_force ≡ str "FOK" → IsTimed o
    day : o.time_in_force ≡ str "DAY" → IsTimed o
    good_till_date :
        (until : ℤ) → o.time_in_force ≡ str "GTD" → o.expiry_timestamp ≡ some until → IsTimed o

  pub record IsValid (o : Order doubles.Double) : Type 0 where
    pub has_id : o.id ≢ []
    pub has_base : o.base_token ≢ []
    pub has_quote : o.quote_token ≢ []
    pub sided : (o.side ≡ str "BUY") ⊎ (o.side ≡ str "SELL")
    pub some_quantity : IsPositive o.quantity
    pub priced : IsPriced o
    pub timed : IsTimed o

  -- The checks of the prices, and of the time in force.
  record PriceChecks (o : Order doubles.Double) : Type 0 where
    known : is_valid_order_type o.order_type ≡ true
    at_limit :
        (bytes_eq o.order_type (str "LIMIT") && doubles.le o.limit_price doubles.nought) ≡ false
    at_stop : (bytes_eq o.order_type (str "STOP") && lacks_stop_price doubles o.stop_price) ≡ false
    both_stop :
        (bytes_eq o.order_type (str "STOP_LIMIT") && lacks_stop_price doubles o.stop_price) ≡ false
    both_limit :
        (bytes_eq o.order_type (str "STOP_LIMIT") && doubles.le o.limit_price doubles.nought)
        ≡ false

  type_cases :
      (x : Bytes)
      → is_valid_order_type x ≡ true
      → (x ≡ str "MARKET") ⊎ (x ≡ str "LIMIT") ⊎ (x ≡ str "STOP") ⊎ (x ≡ str "STOP_LIMIT")
  unfolding is_valid_order_type
  type_cases x h = ground (
    arith,
    bytes_eq_iff x (str "MARKET"),
    bytes_eq_iff x (str "LIMIT"),
    bytes_eq_iff x (str "STOP"),
    bytes_eq_iff x (str "STOP_LIMIT"),
  )

  has_stop :
      (s : Option doubles.Double)
      → lacks_stop_price doubles s ≡ false
      → (price : doubles.Double) × (s ≡ some price) × IsPositive price
  has_stop none h = cc
  has_stop (some price) h = (price, refl, h)

  -- What a check that is for one type says of an order of that type.
  for_type : (x y : Bytes) (b : Bool) → x ≡ y → (bytes_eq x y && b) ≡ false → b ≡ false
  for_type x y b e h = ground (arith, bytes_eq_iff x y)

  PriceChecks-IsPriced : (o : Order doubles.Double) → PriceChecks o → IsPriced o
  PriceChecks-IsPriced o h = elim (type_cases o.order_type h.known) [
    | inl e ↦ market e
    | inr (inl e) ↦ limit e (for_type _ _ _ e h.at_limit)
    | inr (inr (inl e)) ↦
        let (price, same, ok) = has_stop o.stop_price (for_type _ _ _ e h.at_stop) in
        stop price e same ok
    | inr (inr (inr e)) ↦
        let (price, same, ok) = has_stop o.stop_price (for_type _ _ _ e h.both_stop) in
        stop_limit price e same ok (for_type _ _ _ e h.both_limit)
  ]

  typed :
      (o : Order doubles.Double) (x : Bytes)
      → o.order_type ≡ x
      → is_valid_order_type x ≡ true
      → (bytes_eq x (str "LIMIT") && doubles.le o.limit_price doubles.nought) ≡ false
      → (bytes_eq x (str "STOP") && lacks_stop_price doubles o.stop_price) ≡ false
      → (bytes_eq x (str "STOP_LIMIT") && lacks_stop_price doubles o.stop_price) ≡ false
      → (bytes_eq x (str "STOP_LIMIT") && doubles.le o.limit_price doubles.nought) ≡ false
      → PriceChecks o
  typed o x e a b c d f = record {
    known = rw e a;
    at_limit = rw e b;
    at_stop = rw e c;
    both_stop = rw e d;
    both_limit = rw e f;
  }

  lacks_stop_price_not :
      (s : Option doubles.Double) (price : doubles.Double)
      → s ≡ some price
      → IsPositive price
      → lacks_stop_price doubles s ≡ false
  lacks_stop_price_not s price e p = rw e p

  IsPriced-PriceChecks : (o : Order doubles.Double) → IsPriced o → PriceChecks o
  unfolding is_valid_order_type bytes_eq
  IsPriced-PriceChecks o (market e) = typed o (str "MARKET") e refl refl refl refl refl
  IsPriced-PriceChecks o (limit e p) = typed o (str "LIMIT") e refl p refl refl refl
  IsPriced-PriceChecks o (stop price e same p) =
      typed o (str "STOP") e refl refl (lacks_stop_price_not _ price same p) refl refl
  IsPriced-PriceChecks o (stop_limit price e same p q) =
      typed o (str "STOP_LIMIT") e refl refl refl (lacks_stop_price_not _ price same p) q

  -- The checks of the time in force.
  TimeChecks : Order doubles.Double → Type 0
  TimeChecks o =
      (is_valid_time_in_force o.time_in_force ≡ true)
      × ((bytes_eq o.time_in_force (str "GTD") && is_none o.expiry_timestamp) ≡ false)

  time_cases :
      (x : Bytes)
      → is_valid_time_in_force x ≡ true
      → (x ≡ str "GTC") ⊎ (x ≡ str "IOC") ⊎ (x ≡ str "FOK") ⊎ (x ≡ str "DAY") ⊎ (x ≡ str "GTD")
  unfolding is_valid_time_in_force
  time_cases x h = ground (
    arith,
    bytes_eq_iff x (str "GTC"),
    bytes_eq_iff x (str "IOC"),
    bytes_eq_iff x (str "FOK"),
    bytes_eq_iff x (str "DAY"),
    bytes_eq_iff x (str "GTD"),
  )

  has_expiry : (s : Option ℤ) → is_none s ≡ false → (until : ℤ) × (s ≡ some until)
  has_expiry none h = cc
  has_expiry (some until) h = (until, refl)

  TimeChecks-IsTimed : (o : Order doubles.Double) → TimeChecks o → IsTimed o
  unfolding TimeChecks
  TimeChecks-IsTimed o (known, dated) = elim (time_cases o.time_in_force known) [
    | inl e ↦ good_till_cancelled e
    | inr (inl e) ↦ immediate_or_cancel e
    | inr (inr (inl e)) ↦ fill_or_kill e
    | inr (inr (inr (inl e))) ↦ day e
    | inr (inr (inr (inr e))) ↦
        let (until, same) = has_expiry o.expiry_timestamp (for_type _ _ _ e dated) in
        good_till_date until e same
  ]

  IsTimed-TimeChecks : (o : Order doubles.Double) → IsTimed o → TimeChecks o
  unfolding TimeChecks is_valid_time_in_force bytes_eq
  IsTimed-TimeChecks o (good_till_cancelled e) = (rw e refl, rw e refl)
  IsTimed-TimeChecks o (immediate_or_cancel e) = (rw e refl, rw e refl)
  IsTimed-TimeChecks o (fill_or_kill e) = (rw e refl, rw e refl)
  IsTimed-TimeChecks o (day e) = (rw e refl, rw e refl)
  IsTimed-TimeChecks o (good_till_date until e same) = (rw e refl, rw e (rw same refl))

  -- The twelve checks, in the order of the code.
  checks_of : Order doubles.Double → List (Bool × Bytes)
  checks_of o =
      let is_stop_limit = bytes_eq o.order_type (str "STOP_LIMIT") in
      let no_stop = lacks_stop_price doubles o.stop_price in
      let no_limit = doubles.le o.limit_price doubles.nought in
      (is_empty o.id, str "Order ID is required")
      ∷ (is_empty o.base_token, str "Base token is required")
      ∷ (is_empty o.quote_token, str "Quote token is required")
      ∷ (not (is_valid_side o.side), str "Side must be 'BUY' or 'SELL'")
      ∷ (doubles.le o.quantity doubles.nought, str "Quantity must be positive")
      ∷ (not (is_valid_order_type o.order_type), str "Invalid order type: " ++ o.order_type)
      ∷ (
        bytes_eq o.order_type (str "LIMIT") && no_limit,
        str "Limit price must be positive for LIMIT orders",
      )
      ∷ (
        bytes_eq o.order_type (str "STOP") && no_stop,
        str "Stop price must be positive for STOP orders",
      )
      ∷ (is_stop_limit && no_stop, str "Stop price must be positive for STOP_LIMIT orders")
      ∷ (is_stop_limit && no_limit, str "Limit price must be positive for STOP_LIMIT orders")
      ∷ (
        not (is_valid_time_in_force o.time_in_force),
        str "Invalid time in force: " ++ o.time_in_force,
      )
      ∷ (
        bytes_eq o.time_in_force (str "GTD") && is_none o.expiry_timestamp,
        str "Expiry timestamp required for GTD orders",
      )
      ∷ []

  validate-collect : (o : Order doubles.Double) → validate doubles o ≡ collect (checks_of o)
  unfolding validate checks_of
  validate-collect o = refl

  sided_iff : (s : Bytes) → (is_valid_side s ≡ true) ↔ ((s ≡ str "BUY") ⊎ (s ≡ str "SELL"))
  unfolding is_valid_side
  sided_iff s = ground (arith, bytes_eq_iff s (str "BUY"), bytes_eq_iff s (str "SELL"))

  checks-IsValid : (o : Order doubles.Double) → AreFalse (checks_of o) → IsValid o
  unfolding checks_of TimeChecks
  checks-IsValid o (a, (b, (c, (d, (e, (f, (g, (h, (i, (j, (k, (l, t)))))))))))) = record {
    has_id = (is_empty_iff o.id).0 a;
    has_base = (is_empty_iff o.base_token).0 b;
    has_quote = (is_empty_iff o.quote_token).0 c;
    sided = (sided_iff o.side).0 (true_of_not _ d);
    some_quantity = e;
    priced = PriceChecks-IsPriced o (record {
      known = true_of_not _ f;
      at_limit = g;
      at_stop = h;
      both_stop = i;
      both_limit = j;
    });
    timed = TimeChecks-IsTimed o (true_of_not _ k, l);
  }

  IsValid-checks : (o : Order doubles.Double) → IsValid o → AreFalse (checks_of o)
  unfolding checks_of TimeChecks
  IsValid-checks o v =
      let p = IsPriced-PriceChecks o v.priced in
      let (known, dated) = IsTimed-TimeChecks o v.timed in
      (
        (is_empty_iff o.id).1 v.has_id,
        (
          (is_empty_iff o.base_token).1 v.has_base,
          (
            (is_empty_iff o.quote_token).1 v.has_quote,
            (
              ap not ((sided_iff o.side).1 v.sided),
              (
                v.some_quantity,
                (
                  ap not p.known,
                  (
                    p.at_limit,
                    (p.at_stop, (p.both_stop, (p.both_limit, (ap not known, (dated, tt))))),
                  ),
                ),
              ),
            ),
          ),
        ),
      )

  -- Order::validate reports no error exactly for the orders that are valid: they have an identifier
  -- and both tokens, are a BUY or a SELL of a positive quantity, have one of the four types with the
  -- positive prices that it asks for, and one of the five times in force, with an expiry where it is
  -- GTD. (A double counts as positive when it is not <= 0.0.)
  pub validate-IsValid : (o : Order doubles.Double) → (validate doubles o ≡ []) ↔ IsValid o
  validate-IsValid o = (
    (λ h. checks-IsValid o (collect-AreFalse _ (sym (validate-collect o) ∙ h))),
    (λ v. validate-collect o ∙ AreFalse-collect _ (IsValid-checks o v)),
  )
