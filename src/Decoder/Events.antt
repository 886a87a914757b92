-- ===== src/Decoder/Events.antt =====
-- SessionEvent messages on the wire.
use aeron_cluster_client_cpp.Prelude.{
  ℕ, ◌+◌, ◌-◌, ◌<◌, ◌≡◌, refl, ap, ◌∙◌, ◌≢◌, Bytes, [], ◌++◌, length, drop, le, arith, ◌≤◌,
  append-nil, length-drop, from_le, from_le-le, subst₂,
}
use aeron_cluster_client_cpp.Prelude.Int.{
  ℤ, to_u64, to_u32, of_u64, of_u32, IsI64, IsI32, of_u64-to_u64, of_u32-to_u32, to_u64-lt,
  to_u32-lt,
}
use aeron_cluster_client_cpp.Sbe.Header.{read_header}
use aeron_cluster_client_cpp.Decoder.{
  accepted, overread, decode_session_event, SessionEvent, read_session_event,
  extract_variable_string, string_limit,
}
use aeron_cluster_client_cpp.Decoder.Strings.{
  prefixed, extract_variable_string_first, extract_variable_string_reads,
}

-- The values fit the fields of the structure.
pub record EventFits (e : SessionEvent) : Type 0 where
  pub correlation : IsI64 e.correlation_id
  pub session : IsI64 e.cluster_session_id
  pub term : IsI64 e.leadership_term_id
  pub leader : IsI32 e.leader_member_id
  pub event_code : IsI32 e.code

-- The fixed block of a SessionEvent.
unfoldable pub event_block : SessionEvent → Bytes
event_block e =
    le 8 (to_u64 e.correlation_id)
    ++ (le 8 (to_u64 e.cluster_session_id)
        ++ (le 8 (to_u64 e.leadership_term_id)
            ++ (le 4 (to_u32 e.leader_member_id) ++ le 4 (to_u32 e.code))))

abbrev event_header : Bytes
event_header = le 2 32 ++ (le 2 2 ++ (le 2 111 ++ le 2 8))

-- A SessionEvent on the wire: header, block, detail.
unfoldable pub session_event_bytes : SessionEvent → Bytes → Bytes
session_event_bytes e detail = event_header ++ (event_block e ++ prefixed detail)

read_event_block :
    (e : SessionEvent) (rest : Bytes) → EventFits e → read_session_event (event_block e ++ rest) ≡ e
unfolding read_session_event event_block
read_event_block e rest fits = λ i. record {
  correlation_id = word e.correlation_id fits.correlation i;
  cluster_session_id = word e.cluster_session_id fits.session i;
  leadership_term_id = word e.leadership_term_id fits.term i;
  leader_member_id = half e.leader_member_id fits.leader i;
  code = half e.code fits.event_code i;
}
  where
    word : (a : ℤ) → IsI64 a → of_u64 (from_le (le 8 (to_u64 a))) ≡ a
    word a h = ap of_u64 (from_le-le 8 (to_u64 a) (to_u64-lt a)) ∙ of_u64-to_u64 a h

    half : (a : ℤ) → IsI32 a → of_u32 (from_le (le 4 (to_u32 a))) ≡ a
    half a h = ap of_u32 (from_le-le 4 (to_u32 a) (to_u32-lt a)) ∙ of_u32-to_u32 a h

decode_parts :
    (memory : Bytes) (e : SessionEvent) (offset : ℕ) (detail : Bytes)
    → 40 < length memory
    → (read_header memory).template_id ≡ 2
    → (read_header memory).schema_id ≡ 111
    → read_session_event (drop 8 memory) ≡ e
    → extract_variable_string (drop 40 memory) 0 (length memory - 8 - 32)
      ≡ accepted (offset, detail)
    → decode_session_event memory ≡ accepted (e, detail)
unfolding decode_session_event
decode_parts memory e offset detail long template schema event extracted = ground arith

detail_extracted :
    (detail : Bytes) (n : ℕ)
    → length detail ≤ string_limit
    → n ≡ 4 + length detail
    → extract_variable_string (prefixed detail) 0 n ≡ accepted (4 + length detail, detail)
detail_extracted detail n fits e =
    subst₂
      (λ (m : Bytes) (k : ℕ). extract_variable_string m 0 k ≡ accepted (4 + length detail, detail))
      (append-nil (prefixed detail)) (ap length (append-nil (prefixed detail)) ∙ omega (arith, e))
      (extract_variable_string_reads [] detail [] fits)

-- A SessionEvent message decodes to the event and the detail that it was made of.
pub decode_session_event_bytes :
    (e : SessionEvent) (detail : Bytes)
    → EventFits e
    → length detail ≤ string_limit
    → decode_session_event (session_event_bytes e detail) ≡ accepted (e, detail)
unfolding session_event_bytes event_block read_header
decode_session_event_bytes e detail fits small =
    decode_parts (session_event_bytes e detail) e (4 + length detail) detail (omega arith) refl refl
      (read_event_block e (prefixed detail) fits) (detail_extracted detail _ small (omega arith))

-- No message makes the decoder of session events read past its end.
pub decode_session_event_in_bounds : (memory : Bytes) → decode_session_event memory ≢ overread
unfolding decode_session_event
decode_session_event_in_bounds memory =
    ground (arith, extract_variable_string_first (drop 40 memory), length-drop {0} 40 memory)
