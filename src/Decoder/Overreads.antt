-- ===== src/Decoder/Overreads.antt =====
-- How `decode_acknowledgment` leaves the memory that it was given.
use aeron_cluster_client_cpp.Prelude.{
  ℕ, ◌+◌, ◌-◌, ◌≤◌, ◌<◌, ◌≡◌, refl, ap, ◌∙◌, sym, Bytes, [], ◌++◌, length, drop, le, read_le,
  read_le-append, length-append, length-le, arith,
}
use aeron_cluster_client_cpp.Sbe.Header.{read_header, acknowledgment_template_id, topic_schema_id}
use aeron_cluster_client_cpp.Decoder.{
  accepted, overread, string_limit, extract_variable_string, decode_acknowledgment,
}
use aeron_cluster_client_cpp.Decoder.Strings.{prefixed, extract_variable_string_reads}

-- An Acknowledgment whose first string is whole, with a second that says it has `size` bytes.
pub acknowledgment_bytes : ℕ → ℕ → ℕ → Bytes → ℕ → Bytes → Bytes
acknowledgment_bytes block_length version stamp message_id size rest =
    le 2 block_length
    ++ (le 2 acknowledgment_template_id
        ++ (le 2 topic_schema_id
            ++ (le 2 version ++ (le 8 stamp ++ (prefixed message_id ++ (le 4 size ++ rest))))))

-- The second string.
second_overreads :
    (front rest : Bytes) (size : ℕ)
    → size ≤ string_limit
    → length rest < size
    → size ≤ length front + length rest
    → (let body = front ++ (le 4 size ++ rest) in
        extract_variable_string body (length front) (length body))
      ≡ overread
unfolding extract_variable_string
second_overreads front rest size small past within =
    let body = front ++ (le 4 size ++ rest) in
    let claimed : read_le 4 (length front) body ≡ size =
      read_le-append 4 size front rest (length front) refl (omega arith) in
    let n = length-append {0} front (le 4 size ++ rest) in
    let k = length-append {0} (le 4 size) rest in
    let four = length-le 4 size in ground (arith, claimed, n, k, four)

both_strings :
    (memory body : Bytes) (offset : ℕ) (message_id : Bytes)
    → 16 ≤ length memory
    → (read_header memory).template_id ≡ acknowledgment_template_id
    → (read_header memory).schema_id ≡ topic_schema_id
    → drop 16 memory ≡ body
    → length memory - 16 ≡ length body
    → extract_variable_string body 0 (length body) ≡ accepted (offset, message_id)
    → extract_variable_string body offset (length body) ≡ overread
    → decode_acknowledgment memory ≡ overread
unfolding decode_acknowledgment
both_strings memory body offset message_id long template schema rest size first second =
    ground (arith, long, template, schema, rest, size, first, second)

-- An Acknowledgment with a whole message id of at most 10 MiB, whose status says that it has more
-- bytes than are left behind its length, but no more than the message has behind its timestamp less
-- four, and at most 10 MiB: `decode_acknowledgment` checks the length against all of the strings,
-- and reads past the end of the message.
pub decode_acknowledgment_overreads :
    (block_length version stamp : ℕ) (message_id : Bytes) (size : ℕ) (rest : Bytes)
    → length message_id ≤ string_limit
    → size ≤ string_limit
    → length rest < size
    → size ≤ 4 + length message_id + length rest
    → decode_acknowledgment (acknowledgment_bytes block_length version stamp message_id size rest)
      ≡ overread
unfolding acknowledgment_bytes read_header
decode_acknowledgment_overreads block_length version stamp message_id size rest fits small past
      within =
    let message = acknowledgment_bytes block_length version stamp message_id size rest in
    let body = prefixed message_id ++ (le 4 size ++ rest) in
    let n : length (prefixed message_id) ≡ 4 + length message_id =
      omega (arith, length-append {0} (le 4 (length message_id)) message_id) in
    both_strings message body (4 + length message_id) message_id (omega arith) refl refl refl
      (omega arith) (extract_variable_string_reads [] message_id (le 4 size ++ rest) fits)
      (ap (λ (k : ℕ). extract_variable_string body k (length body)) (sym n)
        ∙ second_overreads (prefixed message_id) rest size small past (omega (arith, n)))
