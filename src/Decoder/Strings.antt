-- ===== src/Decoder/Strings.antt =====
-- `extract_variable_string` and the memory that it may read.
use aeron_cluster_client_cpp.Prelude.{
  ℕ, ◌+◌, ◌≤◌, ◌≡◌, refl, ap, ◌∙◌, ◌≢◌, Bytes, [], ◌∷◌, ◌++◌, length, take, drop, le, read_le,
  read_le-append, arith, length-append, length-le, append_assoc, drop-append, take-append, sym,
}
use aeron_cluster_client_cpp.Decoder.{accepted, overread, extract_variable_string, string_limit}

-- A string on the wire: a 32-bit length and the bytes.
abbrev pub prefixed : Bytes → Bytes
prefixed s = le 4 (length s) ++ s

-- At offset 0 the check of the length is enough: nothing is read past the end.
pub extract_variable_string_first :
    (memory : Bytes) → extract_variable_string memory 0 (length memory) ≢ overread
unfolding extract_variable_string
extract_variable_string_first memory = ground arith

reads_at :
    (memory : Bytes) (offset : ℕ) (s : Bytes)
    → read_le 4 offset memory ≡ length s
    → take (length s) (drop (offset + 4) memory) ≡ s
    → offset + 4 + length s ≤ length memory
    → length s ≤ string_limit
    → extract_variable_string memory offset (length memory) ≡ accepted (offset + 4 + length s, s)
unfolding extract_variable_string
reads_at memory offset [] size bytes room fits = ground arith
reads_at memory offset (b ∷ s) size bytes room fits = ground arith

-- A string of at most 10 MiB that is wholly there behind its length is read, wherever it stands, and
-- the offset moves behind it.
pub extract_variable_string_reads :
    (front s back : Bytes)
    → length s ≤ string_limit
    → extract_variable_string
        (front ++ (prefixed s ++ back))
        (length front)
        (length (front ++ (prefixed s ++ back)))
      ≡ accepted (length front + 4 + length s, s)
extract_variable_string_reads front s back fits =
    reads_at (front ++ (prefixed s ++ back)) (length front) s
      (ap (λ (b : Bytes). read_le 4 (length front) (front ++ b)) (append_assoc prefix s back)
        ∙ read_le-append 4 (length s) front (s ++ back) (length front) refl (omega arith))
      (ap (λ (b : Bytes). take (length s) (drop (length front + 4) b)) regrouped
        ∙ ap (take (length s)) (
            drop-append (front ++ prefix) (s ++ back) (length front + 4)
              (omega (arith, length-append front prefix, length-le 4 (length s))))
        ∙ take-append s back (length s) refl)
      (omega (
        arith,
        length-append front (prefixed s ++ back),
        length-append (prefixed s) back,
        length-append prefix s,
        length-le 4 (length s),
      ))
      fits
  where
    prefix : Bytes
    prefix = le 4 (length s)

    regrouped : front ++ (prefixed s ++ back) ≡ (front ++ prefix) ++ (s ++ back)
    regrouped =
        ap (◌++◌ front) (append_assoc prefix s back) ∙ sym (append_assoc front prefix (s ++ back))
