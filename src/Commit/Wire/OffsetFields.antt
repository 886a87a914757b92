-- ===== src/Commit/Wire/OffsetFields.antt =====
-- The flyweight reads a CommitOffsetLite message back.
use aeron_cluster_client_cpp.Prelude.{
  ℕ, ◌+◌, ◌^◌, ◌≤◌, ◌<◌, ◌≡◌, ◌≢◌, refl, sym, ap, ◌∙◌, Bytes, [], ◌++◌, length, take, take_all,
  read_le, append-nil, append_assoc, length-append, arith, leb, if◌then◌else◌, ◌&&◌, from_le-le,
  List, ◌⊎◌, inl, inr, dec_le,
}
use aeron_cluster_client_cpp.Json.{Scalar}
use aeron_cluster_client_cpp.Sbe.Exception.{ok, throws, too_long}
use aeron_cluster_client_cpp.Sbe.Read.{Read, got, threw, checked, ◌>>=◌}
use aeron_cluster_client_cpp.Sbe.TopicMessage.{wrap_for_decode}
use aeron_cluster_client_cpp.Sbe.TopicMessage.Getters.{get_string}
use aeron_cluster_client_cpp.Sbe.TopicMessage.Fields.{field, length-field}
use aeron_cluster_client_cpp.Sbe.TopicMessage.Prefix.{
  Reading, advance, advance-Reading, get_string-prefix,
}
use aeron_cluster_client_cpp.Sbe.CommitOffsetLite.{
  CommitOffsetLite, topic_id, sequence, get_message_id_as_string, get_message_identifier_as_string,
  lite_block_length, lite_compute_length,
}
use aeron_cluster_client_cpp.Commit.{CommitOffset, topic_to_id}
use aeron_cluster_client_cpp.Commit.Wire.{lite_frame, build_commit_offset_message}
use aeron_cluster_client_cpp.Commit.Wire.Offsets.{
  lite_block, lite_bytes, length-lite_bytes, behind_block, lite_frame_lem,
}

-- The flyweight on a message, and its members in the order of the schema.
pub record LiteFields : Type 0 where
  pub id : ℕ
  pub number : ℕ
  pub message_id : Bytes
  pub message_identifier : Bytes

unfoldable pub read_lite : Bytes → Read LiteFields
unfolding topic_id sequence
read_lite frame = do
  f0 ← checked (wrap_for_decode frame 8 lite_block_length 1 (length frame))
  id ← topic_id f0
  number ← sequence f0
  (m, f1) ← get_message_id_as_string f0
  (i, f2) ← get_message_identifier_as_string f1
  got (record { id = id; number = number; message_id = m; message_identifier = i })

decode_wrapped :
    (frame : Bytes)
    → 20 ≤ length frame
    → wrap_for_decode frame 8 12 1 (length frame) ≡ ok (behind_block frame (length frame))
unfolding wrap_for_decode
decode_wrapped frame h = ground arith

-- A field that the limit leaves whole.
whole_field :
    (f : CommitOffsetLite) (front s back : Bytes)
    → Reading f front (field s ++ back)
    → length s ≤ 65534
    → length front + 2 + length s ≤ f.buffer_length
    → get_string f ≡ got (s, advance f s)
whole_field f front s back r fits h = ground (arith, get_string-prefix f front s back r)

module _ (id n : ℕ) (m i : Bytes) (hm : length m ≤ 65534) (hi : length i ≤ 65534) where
  abbrev frame : Bytes
  frame = lite_bytes id n m i

  abbrev opened : CommitOffsetLite
  opened = behind_block frame (length frame)

  opened-Reading : Reading opened (lite_block id n) (field m ++ (field i ++ []))
  unfolding lite_bytes
  opened-Reading = record {
    buffer =
        sym (
          take_all _ (length frame)
            (omega (arith, length-append {0} (lite_block id n ++ field m) (field i))))
        ∙ ap (take (length frame)) (
            append_assoc (lite_block id n) (field m) (field i)
            ∙ ap (λ (b : Bytes). lite_block id n ++ (field m ++ b)) (sym (append-nil (field i))));
    position = refl;
    room = refl;
  }

  both_fields :
      (get_string opened ≡ got (m, advance opened m))
      × (get_string (advance opened m) ≡ got (i, advance (advance opened m) i))
  both_fields =
      let r = opened-Reading in
      let n1 = length-lite_bytes id n m i in
      let n2 = length-append {0} (lite_block id n) (field m) in
      (
        whole_field opened (lite_block id n) m _ r hm (omega (arith, n1)),
        whole_field (advance opened m) (lite_block id n ++ field m) i []
            (advance-Reading opened (lite_block id n) m _ r) hi
            (omega (arith, n1, n2, length-field m)),
      )

  fixed_fields : id < 2 ^ 32 → n < 2 ^ 64 → (read_le 4 8 frame ≡ id) × (read_le 8 12 frame ≡ n)
  unfolding lite_bytes
  fixed_fields hid hn = (from_le-le 4 id hid, from_le-le 8 n hn)

  fixed_reads : id < 2 ^ 32 → n < 2 ^ 64 → (topic_id opened ≡ got id) × (sequence opened ≡ got n)
  unfolding topic_id sequence
  fixed_reads hid hn =
      let (e1, e2) = fixed_fields hid hn in
      let size = length-lite_bytes id n m i in (ground (arith, e1, size), ground (arith, e2, size))

  read_lite_lem :
      id < 2 ^ 32
      → n < 2 ^ 64
      → read_lite frame
        ≡ got (record { id = id; number = n; message_id = m; message_identifier = i })
  unfolding read_lite
  read_lite_lem hid hn =
      let (e1, e2) = both_fields in
      let (e3, e4) = fixed_reads hid hn in
      rw (decode_wrapped frame (omega (arith, length-lite_bytes id n m i)), e3, e4, e1, e2) refl

topic_to_id_bound : (topic : Bytes) → topic_to_id topic < 2 ^ 32
unfolding topic_to_id
topic_to_id_bound topic = ground arith

-- The exception of a field that is too long for its length type.
too_long_lem :
    (id : ℕ) (o : CommitOffset)
    → (65534 < length o.message_id) ⊎ (65534 < length o.message_identifier)
    → lite_frame id o ≡ throws too_long
unfolding lite_frame lite_compute_length
too_long_lem id o (inl h) = ground arith
too_long_lem id o (inr h) = ground arith

-- What `build_commit_offset_message` sends for a topic with an id.
build_lite :
    (write_string : List (Bytes × Scalar) → Bytes) (now later : ℕ) (client_id : Bytes)
    (o : CommitOffset)
    → topic_to_id o.topic ≢ 0
    → build_commit_offset_message write_string now later client_id o
      ≡ lite_frame (topic_to_id o.topic) o
unfolding build_commit_offset_message
build_lite write_string now later client_id o known = ground arith

-- For an offset whose topic has an id and whose sequence number is below 2 ^ 64, the flyweight reads
-- the topic's id, the sequence number, the message id and the message identifier from the message
-- of `build_commit_offset_message`, if the two texts have at most 65534 bytes each; if one is longer,
-- building the message throws that it is too long.
pub build_commit_offset_message-read_lite :
    (write_string : List (Bytes × Scalar) → Bytes) (now later : ℕ) (client_id : Bytes)
    (o : CommitOffset)
    → topic_to_id o.topic ≢ 0
    → o.sequence_number < 2 ^ 64
    → (checked (build_commit_offset_message write_string now later client_id o) >>= read_lite) ≡ (
        if leb (length o.message_id) 65534 && leb (length o.message_identifier) 65534
        then got (record {
          id = topic_to_id o.topic;
          number = o.sequence_number;
          message_id = o.message_id;
          message_identifier = o.message_identifier;
        })
        else threw too_long)
build_commit_offset_message-read_lite write_string now later client_id o known small =
    let id = topic_to_id o.topic in
    let m = o.message_id in
    let i = o.message_identifier in
    let built = build_lite write_string now later client_id o known in
    elim (dec_le (length m) 65534) [
      | yes hm ↦ elim (dec_le (length i) 65534) [
        | yes hi ↦ ground (
          arith,
          built,
          lite_frame_lem id o hm hi,
          read_lite_lem id o.sequence_number m i hm hi (topic_to_id_bound o.topic) small,
        )
        | no hi ↦ ground (arith, built, too_long_lem id o (inr (omega arith)))
      ]
      | no hm ↦ ground (arith, built, too_long_lem id o (inl (omega arith)))
    ]
