-- ===== src/Text/Runs.antt =====
-- The strings that `extract_readable_strings` finds.
use aeron_cluster_client_cpp.Prelude.{
  ℕ, ◌≤◌, ◌≡◌, Bytes, List, [], ◌∷◌, ◌++◌, suc, ◌==◌, true, false, length, arith, leb,
  if◌then◌else◌, Bool-cases, inl, inr,
}
use aeron_cluster_client_cpp.Text.{is_printable, collect_runs, extract_readable_strings}

abbrev pub All {ℓ κ} : {A : Type ℓ} → (A → Type κ) → List A → Type κ
All P [] = Unit
All P (x ∷ xs) = P x × All P xs

pub All-append {ℓ κ} :
    {A : Type ℓ} (P : A → Type κ) (xs ys : List A) → All P xs → All P ys → All P (xs ++ ys)
All-append P [] ys h k = k
All-append P (x ∷ xs) ys h k = (h.0, All-append P xs ys h.1 k)

abbrev pub IsPrintable : Bytes → Type 0
IsPrintable s = All (λ c. is_printable c ≡ true) s

-- Printable throughout, and at least as long as asked for.
pub record IsRun (min_length : ℕ) (s : Bytes) : Type 0 where
  pub printable : IsPrintable s
  pub long : min_length ≤ length s

kept :
    (min_length : ℕ) (current : Bytes) (found : List Bytes)
    → IsPrintable current
    → All (IsRun min_length) found
    → All
        (IsRun min_length)
        (if leb min_length (length current) then found ++ (current ∷ []) else found)
kept min_length current found printable runs = elim (Bool-cases (leb min_length (length current))) [
  | inl long ↦ rw long (
      All-append (IsRun min_length) found (current ∷ []) runs
        (record { printable = printable; long = ground arith }, tt))
  | inr short ↦ rw short runs
]

collect_runs-IsRun :
    (min_length : ℕ) (memory current : Bytes) (found : List Bytes)
    → IsPrintable current
    → All (IsRun min_length) found
    → All (IsRun min_length) (collect_runs min_length memory current found)
unfolding collect_runs
collect_runs-IsRun min_length [] current found printable runs =
    kept min_length current found printable runs
collect_runs-IsRun min_length (c ∷ rest) current found printable runs =
    elim (Bool-cases (is_printable c)) [
      | inl shown ↦ rw shown (
          collect_runs-IsRun min_length rest (current ++ (c ∷ [])) found
            (All-append (λ b. is_printable b ≡ true) current (c ∷ []) printable (shown, tt)) runs)
      | inr other ↦ rw other (
          collect_runs-IsRun min_length rest [] _ tt (kept min_length current found printable runs))
    ]

-- Every string that is found is printable throughout and has the length asked for.
pub extract_readable_strings-IsRun :
    (memory : Bytes) (min_length : ℕ)
    → All (IsRun min_length) (extract_readable_strings memory min_length)
unfolding extract_readable_strings
extract_readable_strings-IsRun [] min_length = tt
extract_readable_strings-IsRun (c ∷ memory) min_length =
    rw (not_zero (length memory)) (collect_runs-IsRun min_length (c ∷ memory) [] [] tt tt)
  where
    not_zero : (n : ℕ) → (suc n == 0) ≡ false
    not_zero n = ground arith
