-- ===== src/Commit/Wire/Control.antt =====
-- What the control messages look like on the wire, and that they are read back.
use aeron_cluster_client_cpp.Prelude.{
  ℕ, ◌+◌, ◌-◌, ◌%◌, ◌≤◌, ◌≡◌, refl, ap, ◌∙◌, Bytes, ◌++◌, length, take, take_all, take-append,
  replicate, replicate-add, length-replicate, write_at, write_at-nil, le, str, drop, arith,
}
use aeron_cluster_client_cpp.Sbe.Exception.{Result, ok, ◌>>=◌}
use aeron_cluster_client_cpp.Sbe.TopicMessage.{
  TopicMessage, header_bytes, header_wrap, wrap_for_encode, set_timestamp, set_sequence_number,
  encoded_length,
}
use aeron_cluster_client_cpp.Sbe.TopicMessage.Fields.{field, place}
use aeron_cluster_client_cpp.Sbe.TopicMessage.Room.{Room, put_field-Room}
use aeron_cluster_client_cpp.Encoder.Cut.{topic_block, topic_message_bytes}
use aeron_cluster_client_cpp.Parser.Truncation.{length-topic_message_bytes}
use aeron_cluster_client_cpp.Commit.Wire.{
  put_chars, topic_subscriptions, topic_frame, control_frame,
}

-- The flyweight behind the header and the fixed block.
abbrev start : ℕ → ℕ → TopicMessage
start now room = record {
  buffer = topic_block now 0 ++ replicate room 0;
  buffer_length = 16 + room;
  offset = 8;
  position = 24;
  acting_block_length = 16;
  acting_version = 1;
}

blank :
    (now room : ℕ)
    → write_at
        (write_at (write_at (replicate (24 + room) 0) 0 (header_bytes 16 1 1 1)) 8 (le 8 now))
        16
        (le 8 0)
      ≡ topic_block now 0 ++ replicate room 0
blank now room =
    rw (replicate-add {A = ℕ} 24 room 0)
      (ap (◌++◌ (topic_block now 0)) (write_at-nil (replicate {A = ℕ} room 0) 0))

wrapped :
    (b : Bytes) (room : ℕ)
    → 8 ≤ room
    → wrap_for_encode b 8 (24 + room - 8)
      ≡ ok (record {
        buffer = b;
        buffer_length = 16 + room;
        offset = 8;
        position = 24;
        acting_block_length = 16;
        acting_version = 1;
      })
unfolding wrap_for_encode
wrapped b room h = ground arith

header_wrapped : (room : ℕ) → header_wrap 0 (24 + room) ≡ ok tt
unfolding header_wrap
header_wrapped room = ground arith

short_enough : (s : Bytes) → length s ≤ 65535 → take (length s % 65536) s ≡ s
short_enough s h = take_all s (length s % 65536) (omega arith)

start-Room :
    (now room left : ℕ)
    → 8 + left ≡ room
    → Room (start now room) (topic_block now 0) (replicate room 0) left
start-Room now room left e = record {
  buffer = refl;
  position = refl;
  limit = omega arith;
  enough = omega (arith, length-replicate {A = ℕ} room 0);
}

-- A field of at most 65535 bytes for which there is room.
put_next :
    (f : TopicMessage) (front back s : Bytes) (left more : ℕ)
    → Room f front back left
    → left ≡ 2 + length s + more
    → length s ≤ 65535
    → (put_chars s f ≡ ok (place f s))
      × Room (place f s) (front ++ field s) (drop (2 + length s) back) more
put_next f front back s left more r e fits =
    rw (short_enough s fits) (put_field-Room f front back s left more r e)

module _ (now room : ℕ) (t m u p h : Bytes)
    (enough : 18 + (length t + length m + length u + length p + length h) ≤ room)
    (small : room ≤ 65535) where
  -- The flyweight behind the last field.
  filled : TopicMessage
  filled = place (place (place (place (place (start now room) t) m) u) p) h

  filled-offset : filled.offset ≡ 8
  unfolding filled place
  filled-offset = refl

  abbrev spare : ℕ
  spare = room - (18 + (length t + length m + length u + length p + length h))

  filled_lem :
      ((put_chars t (start now room) >>= λ t1. put_chars m t1 >>= λ t2. put_chars u t2 >>= λ t3.
      put_chars p t3 >>= λ t4. put_chars h t4 >>= λ t5. ok (take (8 + encoded_length t5) t5.buffer))
        ≡ ok (take (8 + encoded_length filled) filled.buffer))
      × ((back : Bytes) × (filled.buffer ≡ topic_message_bytes now 0 t m u p h ++ back)
          × (filled.position ≡ length (topic_message_bytes now 0 t m u p h)))
  unfolding filled topic_message_bytes
  filled_lem =
      let (e1, r1) =
        put_next _ _ _ t _ (8 + length m + length u + length p + length h + spare)
          (start-Room now room (room - 8) (omega arith)) (omega arith) (omega arith) in
      let (e2, r2) =
        put_next _ _ _ m _ (6 + length u + length p + length h + spare) r1 (omega arith)
          (omega arith) in
      let (e3, r3) =
        put_next _ _ _ u _ (4 + length p + length h + spare) r2 (omega arith) (omega arith) in
      let (e4, r4) = put_next _ _ _ p _ (2 + length h + spare) r3 (omega arith) (omega arith) in
      let (e5, r5) = put_next _ _ _ h _ spare r4 (omega arith) (omega arith) in
      (rw (e1, e2, e3, e4, e5) refl, (_, r5.buffer, r5.position))

-- What is done with the flyweight behind the fixed block.
abbrev put_all : Bytes → Bytes → Bytes → Bytes → Bytes → TopicMessage → Result Bytes
put_all t m u p h t0 = do
  t1 ← put_chars t t0
  t2 ← put_chars m t1
  t3 ← put_chars u t2
  t4 ← put_chars p t3
  t5 ← put_chars h t4
  ok (take (8 + encoded_length t5) t5.buffer)

finish :
    (now room : ℕ) (t m u p h : Bytes)
    (enough : 18 + (length t + length m + length u + length p + length h) ≤ room)
    (small : room ≤ 65535)
    → let f = filled now room t m u p h enough small in
      take (8 + encoded_length f) f.buffer ≡ topic_message_bytes now 0 t m u p h
unfolding encoded_length
finish now room t m u p h enough small =
    let full = topic_message_bytes now 0 t m u p h in
    let (back, buffer, position) = (filled_lem now room t m u p h enough small).1 in
    let n = length-topic_message_bytes now 0 t m u p h in
    let e : 8 + (length full - 8) ≡ length full = omega (arith, n) in
    rw (buffer, position, filled-offset now room t m u p h enough small, e)
      (take-append full back (length full) refl)

-- A message whose fields fit the vector is the wire format of a TopicMessage.
pub topic_frame_lem :
    (now room : ℕ) (t m u p h : Bytes)
    → 18 + (length t + length m + length u + length p + length h) ≤ room
    → room ≤ 65535
    → topic_frame room now t m u p h ≡ ok (topic_message_bytes now 0 t m u p h)
unfolding topic_frame set_timestamp set_sequence_number
topic_frame_lem now room t m u p h enough small =
    rw
      (
        header_wrapped room,
        wrapped (write_at (replicate (24 + room) 0) 0 (header_bytes 16 1 1 1)) room (omega arith),
      )
      (ap (λ (b : Bytes). put_all t m u p h (record (start now room) { buffer = b }))
          (blank now room)
        ∙ (filled_lem now room t m u p h enough small).0
        ∙ ap ok (finish now room t m u p h enough small))

pub control_frame_lem :
    (now room : ℕ) (m u p : Bytes)
    → 34 + (length m + length u + length p) ≤ room
    → room ≤ 65535
    → control_frame room now m u p
      ≡ ok (topic_message_bytes now 0 topic_subscriptions m u p (str "{}"))
unfolding control_frame
control_frame_lem now room m u p enough small =
    topic_frame_lem now room topic_subscriptions m u p (str "{}") (omega arith) small
