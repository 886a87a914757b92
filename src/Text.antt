-- ===== src/Text.antt =====
-- What the program uses of `std::string`: `find`, `to_string`, and runs of printable characters.
pub mod Runs
use aeron_cluster_client_cpp.Prelude.{
  ℕ, zero, suc, ◌+◌, ◌≤◌, arith, ◌/◌, ◌%◌, Bytes, List, [], ◌∷◌, ◌++◌, Bool, true, false, ◌&&◌,
  ◌||◌, length, ltb, leb, ◌==◌, if◌then◌else◌, is_empty,
}

abbrev pub starts_with : Bytes → Bytes → Bool
starts_with s [] = true
starts_with [] (y ∷ ys) = false
starts_with (x ∷ xs) (y ∷ ys) = x == y && starts_with xs ys

-- `s.find(t) != std::string::npos`
unfoldable pub contains : Bytes → Bytes → Bool
contains [] t = is_empty t
contains (x ∷ xs) t = starts_with (x ∷ xs) t || contains xs t

-- The decimal digits of a number below 10 ^ fuel, put before `rest`.
digits : ℕ → ℕ → Bytes → Bytes
digits zero n rest = rest
digits (suc fuel) n rest =
    let more = digits fuel (n / 10) ((48 + n % 10) ∷ rest) in
    if ltb n 10 then (48 + n) ∷ rest else more

-- `std::to_string` of an unsigned 64-bit number: 20 digits at most.
unfoldable pub to_string : ℕ → Bytes
unfolding digits
to_string n = digits 20 n []

-- `c >= 32 && c <= 126`
abbrev pub is_printable : ℕ → Bool
is_printable c = leb 32 c && leb c 126

-- The loop that collects the runs of printable characters of at least `min_length`, with the run
-- `current` and the runs `found` so far.
unfoldable pub collect_runs : ℕ → Bytes → Bytes → List Bytes → List Bytes
collect_runs min_length [] current found =
    if leb min_length (length current) then found ++ (current ∷ []) else found
collect_runs min_length (c ∷ rest) current found =
    collect_runs min_length rest (if is_printable c then current ++ (c ∷ []) else []) (
      if is_printable c
      then found
      else if leb min_length (length current)
      then found ++ (current ∷ [])
      else found)

unfoldable pub extract_readable_strings : Bytes → ℕ → List Bytes
unfolding collect_runs
extract_readable_strings memory min_length =
    if length memory == 0 then [] else collect_runs min_length memory [] []

length-digits : (fuel n : ℕ) (rest : Bytes) → length (digits fuel n rest) ≤ fuel + length rest
unfolding digits
length-digits zero n rest = omega arith
length-digits (suc fuel) n rest =
    let ih = length-digits fuel (n / 10) ((48 + n % 10) ∷ rest) in ground (arith, ih)

pub length-to_string : (n : ℕ) → length (to_string n) ≤ 20
unfolding to_string
length-to_string n = omega (arith, length-digits 20 n [])
