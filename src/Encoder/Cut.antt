-- ===== src/Encoder/Cut.antt =====
-- `encode_topic_message` against the wire format of a TopicMessage.
use aeron_cluster_client_cpp.Prelude.{
  ℕ, ◌+◌, ◌-◌, ◌≤◌, ◌≡◌, refl, sym, ap, ◌∙◌, Bytes, ◌++◌, length, take, drop, le, write_at,
  write_at-nil, replicate, replicate-add, length-replicate, length-drop, take-append_within, arith,
  if◌then◌else◌,
}
use aeron_cluster_client_cpp.Prelude.Int.{ℤ, pos, to_u64, eq_ℤ}
use aeron_cluster_client_cpp.Sbe.Exception.{Result, ok, ◌>>=◌}
use aeron_cluster_client_cpp.Sbe.TopicMessage.{
  TopicMessage, compute_length, wrap_and_apply_header, set_timestamp, set_sequence_number,
  put_string, encoded_length, header_bytes,
}
use aeron_cluster_client_cpp.Sbe.TopicMessage.Fields.{
  field, Writing, place, place-Writing, put_string-place,
}
use aeron_cluster_client_cpp.Encoder.{encode_topic_message}

-- The header and the fixed block.
abbrev pub topic_block : ℕ → ℕ → Bytes
topic_block timestamp sequence =
    le 2 16 ++ (le 2 1 ++ (le 2 1 ++ (le 2 1 ++ (le 8 timestamp ++ le 8 sequence))))

-- A whole TopicMessage on the wire: the block, then the five variable fields.
unfoldable pub topic_message_bytes : ℕ → ℕ → Bytes → Bytes → Bytes → Bytes → Bytes → Bytes
topic_message_bytes timestamp sequence topic message_type uuid payload headers =
    ((((topic_block timestamp sequence ++ field topic) ++ field message_type) ++ field uuid)
      ++ field payload)
    ++ field headers

-- Each string fits the 16-bit length type.
abbrev pub Fit : Bytes → Bytes → Bytes → Bytes → Bytes → Type 0
Fit topic message_type uuid payload headers =
    (length topic ≤ 65534)
    × (length message_type ≤ 65534)
    × (length uuid ≤ 65534)
    × (length payload ≤ 65534)
    × (length headers ≤ 65534)

pub compute_length-Fit :
    (t m u p h : Bytes)
    → Fit t m u p h
    → compute_length (length t) (length m) (length u) (length p) (length h)
      ≡ ok (26 + (length t + length m + length u + length p + length h))
unfolding compute_length
compute_length-Fit t m u p h fit = ground arith

-- The flyweight behind the header with its timestamp and sequence number.
abbrev start : ℕ → ℕ → TopicMessage
start stamp n = record {
  buffer = topic_block stamp 0 ++ replicate n 0;
  buffer_length = 24 + n;
  offset = 8;
  position = 24;
  acting_block_length = 16;
  acting_version = 1;
}

wrapped :
    (b : Bytes) (n : ℕ)
    → wrap_and_apply_header b 0 (24 + n)
      ≡ ok (record {
        buffer = write_at b 0 (header_bytes 16 1 1 1);
        buffer_length = 24 + n;
        offset = 8;
        position = 24;
        acting_block_length = 16;
        acting_version = 1;
      })
unfolding wrap_and_apply_header
wrapped b n = ground arith

blank_block :
    (stamp n : ℕ)
    → write_at
        (write_at (write_at (replicate (24 + n) 0) 0 (header_bytes 16 1 1 1)) 8 (le 8 stamp))
        16
        (le 8 0)
      ≡ topic_block stamp 0 ++ replicate n 0
blank_block stamp n =
    rw (replicate-add {A = ℕ} 24 n 0)
      (ap (◌++◌ (topic_block stamp 0)) (write_at-nil (replicate {A = ℕ} n 0) 0))

blank_stamp :
    (stamp n : ℕ)
    → write_at (write_at (replicate (24 + n) 0) 0 (header_bytes 16 1 1 1)) 8 (le 8 stamp)
      ≡ topic_block stamp 0 ++ replicate n 0
blank_stamp stamp n = rw (replicate-add {A = ℕ} 24 n 0) refl

after_wrap :
    (stamp n : ℕ)
    → (wrap_and_apply_header (replicate (24 + n) 0) 0 (24 + n) >>= λ wrapped.
        ok (set_sequence_number 0 (set_timestamp stamp wrapped)))
      ≡ ok (start stamp n)
unfolding set_timestamp set_sequence_number
after_wrap stamp n =
    rw (wrapped (replicate (24 + n) 0) n)
      (ap (λ (b : Bytes). ok (record (start stamp n) { buffer = b })) (blank_block stamp n))

-- Without the sequence number, which is 0 in the new vector anyhow.
pub after_wrap_unnumbered :
    (stamp n : ℕ) (finish : TopicMessage → Result Bytes)
    → (wrap_and_apply_header (replicate (24 + n) 0) 0 (24 + n) >>= λ wrapped.
        finish (set_timestamp stamp wrapped))
      ≡ (wrap_and_apply_header (replicate (24 + n) 0) 0 (24 + n) >>= λ wrapped.
          finish (set_sequence_number 0 (set_timestamp stamp wrapped)))
unfolding set_timestamp set_sequence_number
after_wrap_unnumbered stamp n finish = rw (wrapped (replicate (24 + n) 0) n) (
    ap (λ (b : Bytes). finish (record (start stamp n) { buffer = b }))
      (blank_stamp stamp n ∙ sym (blank_block stamp n)))

start-Writing : (stamp n : ℕ) → Writing (start stamp n) (topic_block stamp 0) (replicate n 0)
start-Writing stamp n = record {
  buffer = refl;
  position = refl;
  room = omega (arith, length-replicate {A = ℕ} n 0);
}

-- The five fields one after the other, and what is done with the flyweight then.
abbrev pub put_all :
    Bytes
    → Bytes
    → Bytes
    → Bytes
    → Bytes
    → (TopicMessage → Result Bytes)
    → TopicMessage
    → Result Bytes
put_all t m u p h finish f = do
  t1 ← put_string t f
  t2 ← put_string m t1
  t3 ← put_string u t2
  t4 ← put_string p t3
  t5 ← put_string h t4
  finish t5

-- One field, where `more` bytes of room are to be left.
put_next :
    (f : TopicMessage) (front back s : Bytes) (more : ℕ)
    → Writing f front back
    → 2 + length s + more ≤ length back
    → length s ≤ 65534
    → (put_string s f ≡ ok (place f s))
      × Writing (place f s) (front ++ field s) (drop (2 + length s) back)
      × (more ≤ length (drop (2 + length s) back))
put_next f front back s more w room fits = (
  put_string-place f front back s w (omega arith) fits,
  place-Writing f front back s w (omega arith),
  omega (arith, length-drop {0} (2 + length s) back),
)

module _ (stamp : ℕ) (t m u p h : Bytes) (fit : Fit t m u p h) where
  abbrev size : ℕ
  size = 26 + (length t + length m + length u + length p + length h)

  -- The flyweight at the end of the encoding.
  filled : TopicMessage
  filled = place (place (place (place (place (start stamp size) t) m) u) p) h

  filled-offset : filled.offset ≡ 8
  unfolding filled place
  filled-offset = refl

  filled_lem :
      ((finish : TopicMessage → Result Bytes)
        → put_all t m u p h finish (start stamp size) ≡ finish filled)
      × ((back : Bytes) × (filled.buffer ≡ topic_message_bytes stamp 0 t m u p h ++ back)
          × (filled.position ≡ length (topic_message_bytes stamp 0 t m u p h)))
  unfolding filled topic_message_bytes
  filled_lem =
      let (e1, w1, r1) =
        put_next _ _ _ t (8 + length m + length u + length p + length h) (start-Writing stamp size)
          (omega (arith, length-replicate {A = ℕ} size 0)) fit.0 in
      let (e2, w2, r2) =
        put_next _ _ _ m (6 + length u + length p + length h) w1 (omega arith) fit.1 in
      let (e3, w3, r3) = put_next _ _ _ u (4 + length p + length h) w2 (omega arith) fit.2 in
      let (e4, w4, r4) = put_next _ _ _ p (2 + length h) w3 (omega arith) fit.3 in
      let (e5, w5, r5) = put_next _ _ _ h 0 w4 (omega arith) fit.4 in
      ((λ finish. rw (e1, e2, e3, e4, e5)), (_, w5.buffer, w5.position))

-- `buffer.resize(topicMessage.encodedLength())`
abbrev pub shrink : TopicMessage → Result Bytes
shrink f = ok (take (encoded_length f) f.buffer)

shrink_filled :
    (stamp : ℕ) (t m u p h : Bytes) (fit : Fit t m u p h)
    → let full = topic_message_bytes stamp 0 t m u p h in
      let f = filled stamp t m u p h fit in
      take (encoded_length f) f.buffer ≡ take (length full - 8) full
unfolding encoded_length
shrink_filled stamp t m u p h fit =
    let (back, buffer, position) = (filled_lem stamp t m u p h fit).1 in
    let full = topic_message_bytes stamp 0 t m u p h in
    rw (buffer, position, filled-offset stamp t m u p h fit)
      (take-append_within full back (length full - 8) (omega arith))

-- For five strings of at most 65534 bytes each, `encode_topic_message` returns the wire format of the
-- message, with the clock's time for a timestamp of 0 and with sequence number 0, less its last eight
-- bytes.
pub encode_topic_message_cut :
    (now stamp : ℤ) (t m u p h : Bytes)
    → Fit t m u p h
    → let full =
        topic_message_bytes (to_u64 (if eq_ℤ stamp (pos 0) then now else stamp)) 0 t m u p h in
      encode_topic_message now t m u p h stamp ≡ ok (take (length full - 8) full)
unfolding encode_topic_message set_timestamp set_sequence_number
encode_topic_message_cut now stamp t m u p h fit =
    let chosen = to_u64 (if eq_ℤ stamp (pos 0) then now else stamp) in
    let n = size chosen t m u p h fit in
    rw (compute_length-Fit t m u p h fit, wrapped (replicate (24 + n) 0) n)
      (ap (λ (b : Bytes). put_all t m u p h shrink (record (start chosen n) { buffer = b }))
          (blank_block chosen n)
        ∙ (filled_lem chosen t m u p h fit).0 shrink
        ∙ ap ok (shrink_filled chosen t m u p h fit))
