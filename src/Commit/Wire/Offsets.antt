-- ===== src/Commit/Wire/Offsets.antt =====
-- What a CommitOffsetLite message looks like on the wire, and that its flyweight reads it back.
use aeron_cluster_client_cpp.Prelude.{
  ℕ, ◌+◌, ◌-◌, ◌≤◌, ◌≡◌, refl, ap, ◌∙◌, Bytes, ◌++◌, length, take, take-append, replicate,
  replicate-add, length-replicate, write_at, write_at-nil, le, length-append, arith,
}
use aeron_cluster_client_cpp.Sbe.Exception.{Result, ok, ◌>>=◌}
use aeron_cluster_client_cpp.Sbe.TopicMessage.{header_bytes, put_field, encoded_length}
use aeron_cluster_client_cpp.Sbe.TopicMessage.Fields.{field, place, length-field}
use aeron_cluster_client_cpp.Sbe.TopicMessage.Room.{Room, put_field-Room}
use aeron_cluster_client_cpp.Sbe.CommitOffsetLite.{
  CommitOffsetLite, lite_wrap_and_apply_header, set_topic_id, set_sequence, lite_compute_length,
}
use aeron_cluster_client_cpp.Commit.{CommitOffset}
use aeron_cluster_client_cpp.Commit.Wire.{lite_frame}

-- The header and the fixed block.
abbrev pub lite_block : ℕ → ℕ → Bytes
lite_block id n = le 2 12 ++ (le 2 301 ++ (le 2 1 ++ (le 2 1 ++ (le 4 id ++ le 8 n))))

-- The whole message.
unfoldable pub lite_bytes : ℕ → ℕ → Bytes → Bytes → Bytes
lite_bytes id n message_id identifier = (lite_block id n ++ field message_id) ++ field identifier

-- The flyweight behind the fixed block of `memory`.
abbrev pub behind_block : Bytes → ℕ → CommitOffsetLite
behind_block memory limit = record {
  buffer = memory;
  buffer_length = limit;
  offset = 8;
  position = 20;
  acting_block_length = 12;
  acting_version = 1;
}

lite_wrapped :
    (b : Bytes) (room : ℕ)
    → lite_wrap_and_apply_header b 0 (20 + room)
      ≡ ok (behind_block (write_at b 0 (header_bytes 12 301 1 1)) (20 + room))
unfolding lite_wrap_and_apply_header
lite_wrapped b room = ground arith

blank :
    (id n room : ℕ)
    → write_at
        (write_at (write_at (replicate (20 + room) 0) 0 (header_bytes 12 301 1 1)) 8 (le 4 id))
        12
        (le 8 n)
      ≡ lite_block id n ++ replicate room 0
blank id n room =
    rw (replicate-add {A = ℕ} 20 room 0)
      (ap (◌++◌ (lite_block id n)) (write_at-nil (replicate {A = ℕ} room 0) 0))

computed : (a b : ℕ) → a ≤ 65534 → b ≤ 65534 → lite_compute_length a b ≡ ok (12 + (4 + (a + b)))
unfolding lite_compute_length
computed a b ha hb = ground arith

-- The two fields, and the end.
abbrev put_both : Bytes → Bytes → CommitOffsetLite → Result Bytes
put_both m i f0 = do
  f1 ← put_field m f0
  f2 ← put_field i f1
  ok (take (8 + encoded_length f2) f2.buffer)

module _ (id n : ℕ) (m i : Bytes) where
  abbrev room : ℕ
  room = 4 + (length m + length i)

  abbrev begun : CommitOffsetLite
  begun = behind_block (lite_block id n ++ replicate room 0) (20 + room)

  filled : CommitOffsetLite
  filled = place (place begun m) i

  filled-offset : filled.offset ≡ 8
  unfolding filled place
  filled-offset = refl

  begun-Room : Room begun (lite_block id n) (replicate room 0) room
  begun-Room = record {
    buffer = refl;
    position = refl;
    limit = refl;
    enough = omega (arith, length-replicate {A = ℕ} room 0);
  }

  filled_lem :
      (put_both m i begun ≡ ok (take (8 + encoded_length filled) filled.buffer))
      × ((back : Bytes) × (filled.buffer ≡ lite_bytes id n m i ++ back)
          × (filled.position ≡ length (lite_bytes id n m i)))
  unfolding filled lite_bytes
  filled_lem =
      let (e1, r1) = put_field-Room _ _ _ m _ (2 + length i) begun-Room (omega arith) in
      let (e2, r2) = put_field-Room _ _ _ i _ 0 r1 (omega arith) in
      (rw (e1, e2) refl, (_, r2.buffer, r2.position))

pub length-lite_bytes :
    (id n : ℕ) (m i : Bytes) → length (lite_bytes id n m i) ≡ 24 + length m + length i
unfolding lite_bytes
length-lite_bytes id n m i = omega (
  arith,
  length-append {0} (lite_block id n) (field m),
  length-append {0} (lite_block id n ++ field m) (field i),
  length-field m,
  length-field i,
)

finish :
    (id n : ℕ) (m i : Bytes)
    → let f = filled id n m i in take (8 + encoded_length f) f.buffer ≡ lite_bytes id n m i
unfolding encoded_length
finish id n m i =
    let full = lite_bytes id n m i in
    let (back, buffer, position) = (filled_lem id n m i).1 in
    let e : 8 + (length full - 8) ≡ length full = omega (arith, length-lite_bytes id n m i) in
    rw (buffer, position, filled-offset id n m i, e) (take-append full back (length full) refl)

-- The flyweight on a vector of `total` bytes.
abbrev in_vector : ℕ → ℕ → Bytes → Bytes → ℕ → Result Bytes
in_vector id n m i total = do
  f0 ← lite_wrap_and_apply_header (replicate total 0) 0 total
  put_both m i (set_sequence n (set_topic_id id f0))

in_vector_lem :
    (id n : ℕ) (m i : Bytes) → in_vector id n m i (20 + room id n m i) ≡ ok (lite_bytes id n m i)
unfolding set_topic_id set_sequence
in_vector_lem id n m i = rw (lite_wrapped (replicate (20 + room id n m i) 0) (room id n m i)) (
    ap (λ (b : Bytes). put_both m i (record (begun id n m i) { buffer = b }))
      (blank id n (room id n m i))
    ∙ (filled_lem id n m i).0
    ∙ ap ok (finish id n m i))

pub lite_frame_lem :
    (id : ℕ) (o : CommitOffset)
    → length o.message_id ≤ 65534
    → length o.message_identifier ≤ 65534
    → lite_frame id o ≡ ok (lite_bytes id o.sequence_number o.message_id o.message_identifier)
unfolding lite_frame
lite_frame_lem id o hm hi =
    let m = o.message_id in
    let i = o.message_identifier in
    let n = o.sequence_number in
    let e : 8 + (12 + (4 + (length m + length i))) ≡ 20 + room id n m i = omega arith in
    rw (computed (length m) (length i) hm hi) (ap (in_vector id n m i) e ∙ in_vector_lem id n m i)
