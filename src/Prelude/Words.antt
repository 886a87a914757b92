-- ===== src/Prelude/Words.antt =====
-- Bytes, texts as bytes, and little-endian words.
use Prim.Native.Nat.{ℕ, zero, suc, ◌+◌, ◌*◌, ◌/◌, ◌%◌, ◌^◌, ◌<◌}
use Prim.Native.Char.{code}
use Prim.Native.String.{String}
use mathlib.Core.Path.{◌≡◌, refl, ap, ◌∙◌}
use mathlib.Core.Logic.{◌↔◌}
use mathlib.Core.Bool.{Bool, true, false, ◌&&◌}
use mathlib.Core.List.{List, [], ◌∷◌, ◌++◌}
use native.Mathlib.Nat.{pow-suc}
use native.Mathlib.Omega.{arith}
use aeron_cluster_client_cpp.Prelude.Tests.{◌==◌}
use aeron_cluster_client_cpp.Prelude.Lists.{length, take, drop, take-append, drop-append}

-- A `std::string`, a `std::vector<uint8_t>` or the memory behind a pointer.
abbrev pub Bytes : Type 0
Bytes = List ℕ

-- The bytes of an ASCII literal.
abbrev pub str : String → Bytes
str String.[] = []
str (String.◌∷◌ c s) = code c ∷ str s

-- `operator==` of `std::string`.
unfoldable pub bytes_eq : Bytes → Bytes → Bool
bytes_eq [] [] = true
bytes_eq [] (y ∷ ys) = false
bytes_eq (x ∷ xs) [] = false
bytes_eq (x ∷ xs) (y ∷ ys) = x == y && bytes_eq xs ys

pub bytes_eq→eq : (s t : Bytes) → bytes_eq s t ≡ true → s ≡ t
unfolding bytes_eq
bytes_eq→eq [] [] h = refl
bytes_eq→eq [] (y ∷ ys) h = cc
bytes_eq→eq (x ∷ xs) [] h = cc
bytes_eq→eq (x ∷ xs) (y ∷ ys) h = ground (arith, bytes_eq→eq xs ys)

pub bytes_eq_refl : (s : Bytes) → bytes_eq s s ≡ true
unfolding bytes_eq
bytes_eq_refl [] = refl
bytes_eq_refl (x ∷ xs) = ground (arith, bytes_eq_refl xs)

pub bytes_eq_iff : (s t : Bytes) → (bytes_eq s t ≡ true) ↔ (s ≡ t)
bytes_eq_iff s t = (bytes_eq→eq s t, λ e. rw e (bytes_eq_refl t))

-- `std::string::empty()`
abbrev pub is_empty : Bytes → Bool
is_empty [] = true
is_empty (x ∷ xs) = false

-- The `n` lowest bytes of a word, lowest first.
abbrev pub le : ℕ → ℕ → Bytes
le zero w = []
le (suc n) w = w % 256 ∷ le n (w / 256)

abbrev pub from_le : Bytes → ℕ
from_le [] = 0
from_le (b ∷ bs) = b + 256 * from_le bs

pub length-le : (n w : ℕ) → length (le n w) ≡ n
length-le zero w = refl
length-le (suc n) w = ap suc (length-le n (w / 256))

pub from_le-le : (n w : ℕ) → w < 256 ^ n → from_le (le n w) ≡ w
from_le-le zero w h = omega arith
from_le-le (suc n) w h =
    omega (arith, pow-suc 256 n, from_le-le n (w / 256) (omega (arith, pow-suc 256 n)))

-- `memcpy` of an `n`-byte word from memory at an offset.
abbrev pub read_le : ℕ → ℕ → Bytes → ℕ
read_le n offset memory = from_le (take n (drop offset memory))

pub read_le-append :
    (n w : ℕ) (front back : Bytes) (offset : ℕ)
    → offset ≡ length front
    → w < 256 ^ n
    → read_le n offset (front ++ (le n w ++ back)) ≡ w
read_le-append n w front back offset h fits =
    ap (λ (t : Bytes). from_le (take n t)) (drop-append front (le n w ++ back) offset h)
    ∙ ap from_le (take-append (le n w) back n (omega (arith, length-le n w)))
    ∙ from_le-le n w fits

-- Byte `i` of a word: `(value >> (i * 8)) & 0xFF`.
abbrev pub byte_at : ℕ → ℕ → ℕ
byte_at i w = w / 2 ^ (8 * i) % 256

pub bytes_of_u64 :
    (w : ℕ)
    → byte_at 0 w
        ∷ byte_at 1 w
        ∷ byte_at 2 w
        ∷ byte_at 3 w
        ∷ byte_at 4 w
        ∷ byte_at 5 w
        ∷ byte_at 6 w
        ∷ byte_at 7 w
        ∷ []
      ≡ le 8 w
bytes_of_u64 w = ground arith
