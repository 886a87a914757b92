-- ===== src/Sbe/Read.antt =====
-- What reading through a flyweight of include/model/ comes to. The getters read the buffer by
-- memcpy and by std::string's constructor, some of them before the position is checked.
use aeron_cluster_client_cpp.Prelude.{
  ℕ, ◌+◌, Bytes, length, take, drop, read_le, ltb, if◌then◌else◌,
}
use aeron_cluster_client_cpp.Sbe.Exception.{Exception, Result, ok, throws}

-- A value, an exception, or a read past the end of the buffer, after which nothing is known.
pub data Read {ℓ} (A : Type ℓ) : Type ℓ where
  got : A → Read A
  threw : Exception → Read A
  past_end : Read A

infixl 5 ◌>>=◌
abbrev pub ◌>>=◌ {ℓ κ} : {A : Type ℓ} {B : Type κ} → Read A → (A → Read B) → Read B
got a >>= f = f a
threw e >>= f = threw e
past_end >>= f = past_end

-- A step that reads nothing.
abbrev pub checked {ℓ} : {A : Type ℓ} → Result A → Read A
checked (ok a) = got a
checked (throws e) = threw e

abbrev pub read_word : ℕ → Bytes → ℕ → Read ℕ
read_word width buffer position =
    if ltb (length buffer) (position + width) then past_end else got (read_le width position buffer)

abbrev pub read_bytes : ℕ → Bytes → ℕ → Read Bytes
read_bytes size buffer position =
    if ltb (length buffer) (position + size)
    then past_end
    else got (take size (drop position buffer))
