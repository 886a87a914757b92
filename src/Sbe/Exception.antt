-- ===== src/Sbe/Exception.antt =====
-- The exceptions of the flyweights in include/model/, as values.

pub data Exception : Type 0 where
  -- "buffer too short [E100]", "buffer too short for flyweight [E107]",
  -- "... too long for length type [E109]"
  buffer_too_short flyweight_too_short too_long : Exception

pub data Result {ℓ} (A : Type ℓ) : Type ℓ where
  ok : A → Result A
  throws : Exception → Result A

infixl 5 ◌>>=◌
abbrev pub ◌>>=◌ {ℓ κ} : {A : Type ℓ} {B : Type κ} → Result A → (A → Result B) → Result B
ok a >>= f = f a
throws e >>= f = throws e
