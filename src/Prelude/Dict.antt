-- ===== src/Prelude/Dict.antt =====
-- `std::unordered_map` and `std::unordered_set` keyed by texts, as association lists. The order of
-- iteration, which C++ leaves open, is the order of the list.
use Prim.Native.Nat.{◌+◌, ◌≤◌}
use mathlib.Core.Path.{◌≡◌, refl}
use mathlib.Core.Bool.{Bool, false, ◌||◌}
use mathlib.Core.Option.{Option, none, some}
use mathlib.Core.List.{List, [], ◌∷◌}
use native.Mathlib.Omega.{arith}
use aeron_cluster_client_cpp.Prelude.Tests.{if◌then◌else◌}
use aeron_cluster_client_cpp.Prelude.Lists.{length}
use aeron_cluster_client_cpp.Prelude.Words.{Bytes, bytes_eq, bytes_eq_iff}

module _ {ℓ} {V : Type ℓ} where
  -- `find`
  unfoldable pub lookup : Bytes → List (Bytes × V) → Option V
  lookup k [] = none
  lookup k ((j, v) ∷ m) = if bytes_eq j k then some v else lookup k m

  -- `m[k] = v`
  unfoldable pub insert : Bytes → V → List (Bytes × V) → List (Bytes × V)
  insert k v [] = (k, v) ∷ []
  insert k v ((j, w) ∷ m) = if bytes_eq j k then (k, v) ∷ m else (j, w) ∷ insert k v m

  -- `m.erase(k)`
  unfoldable pub erase : Bytes → List (Bytes × V) → List (Bytes × V)
  erase k [] = []
  erase k ((j, w) ∷ m) = let rest = erase k m in if bytes_eq j k then rest else (j, w) ∷ rest

  pub lookup-insert :
      (k j : Bytes) (v : V) (m : List (Bytes × V))
      → lookup j (insert k v m) ≡ (if bytes_eq k j then some v else lookup j m)
  unfolding lookup insert
  lookup-insert k j v [] = refl
  lookup-insert k j v ((i, w) ∷ m) =
      ground (arith, bytes_eq_iff k j, bytes_eq_iff i k, bytes_eq_iff i j, lookup-insert k j v m)

  pub lookup-erase :
      (k j : Bytes) (m : List (Bytes × V))
      → lookup j (erase k m) ≡ (if bytes_eq k j then none else lookup j m)
  unfolding lookup erase
  lookup-erase k j [] = ground arith
  lookup-erase k j ((i, w) ∷ m) =
      ground (arith, bytes_eq_iff k j, bytes_eq_iff i k, bytes_eq_iff i j, lookup-erase k j m)

-- A set of texts: `insert`, `erase` and `find`.
unfoldable pub member : Bytes → List Bytes → Bool
member k [] = false
member k (j ∷ s) = bytes_eq j k || member k s

unfoldable pub add : Bytes → List Bytes → List Bytes
unfolding member
add k s = if member k s then s else k ∷ s

unfoldable pub discard : Bytes → List Bytes → List Bytes
discard k [] = []
discard k (j ∷ s) = let rest = discard k s in if bytes_eq j k then rest else j ∷ rest

pub member-add : (k j : Bytes) (s : List Bytes) → member j (add k s) ≡ (bytes_eq k j || member j s)
unfolding add member
member-add k j s = ground (arith, bytes_eq_iff k j)

pub member-discard :
    (k j : Bytes) (s : List Bytes)
    → member j (discard k s) ≡ (if bytes_eq k j then false else member j s)
unfolding member discard
member-discard k j [] = ground arith
member-discard k j (i ∷ s) =
    ground (arith, bytes_eq_iff k j, bytes_eq_iff i k, bytes_eq_iff i j, member-discard k j s)

pub length-add : (k : Bytes) (s : List Bytes) → length (add k s) ≤ length s + 1
unfolding add
length-add k s = ground arith
