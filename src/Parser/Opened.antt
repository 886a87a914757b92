-- ===== src/Parser/Opened.antt =====
-- The flyweight on the first bytes of a TopicMessage, and what its getters answer.
use aeron_cluster_client_cpp.Prelude.{
  ℕ, ◌+◌, ◌-◌, ◌≤◌, ◌≡◌, refl, Bytes, [], ◌++◌, length, take, leb, if◌then◌else◌, length-append,
  length-take, append_assoc, append-nil, arith,
}
use aeron_cluster_client_cpp.Sbe.Exception.{ok, buffer_too_short}
use aeron_cluster_client_cpp.Sbe.Read.{Read, got, threw, past_end}
use aeron_cluster_client_cpp.Sbe.TopicMessage.{TopicMessage, wrap_for_decode}
use aeron_cluster_client_cpp.Sbe.TopicMessage.Getters.{get_string}
use aeron_cluster_client_cpp.Sbe.TopicMessage.Fields.{field, length-field}
use aeron_cluster_client_cpp.Sbe.TopicMessage.Prefix.{
  Reading, advance, get_string-prefix, advance-Reading,
}
use aeron_cluster_client_cpp.Encoder.Cut.{topic_block, topic_message_bytes, Fit}

pub wrap_for_decode_lem :
    (memory : Bytes) (limit : ℕ)
    → 24 ≤ limit
    → wrap_for_decode memory 8 16 1 limit
      ≡ ok (record {
        buffer = memory;
        buffer_length = limit;
        offset = 8;
        position = 24;
        acting_block_length = 16;
        acting_version = 1;
      })
unfolding wrap_for_decode
wrap_for_decode_lem memory limit long = ground arith

module _ (stamp sequence : ℕ) (t m u p h : Bytes) (fit : Fit t m u p h) (limit : ℕ) where
  unfoldable pub after_block : Bytes
  after_block = field t ++ (field m ++ (field u ++ (field p ++ (field h ++ []))))

  abbrev pub whole : Bytes
  whole = topic_block stamp sequence ++ after_block

  abbrev pub start : TopicMessage
  start = record {
    buffer = take limit whole;
    buffer_length = limit;
    offset = 8;
    position = 24;
    acting_block_length = 16;
    acting_version = 1;
  }

  pub start-Reading : limit ≤ length whole → Reading start (topic_block stamp sequence) after_block
  start-Reading within = record {
    buffer = refl;
    position = refl;
    room = omega (arith, length-take {0} limit whole);
  }

  -- A field that ends at `n` is read, or throws, or is read past the end.
  abbrev pub field_read : TopicMessage → Bytes → ℕ → Read (Bytes × TopicMessage)
  field_read f s n =
      if leb n limit
      then got (s, advance f s)
      else if leb (n - length s) limit
      then past_end
      else threw buffer_too_short

  -- The answers of the five getters.
  pub record Answers : Type 0 where
    pub topic : get_string start ≡ field_read start t (26 + length t)
    pub message_type :
        get_string (advance start t) ≡ field_read (advance start t) m (28 + length t + length m)
    pub uuid :
        get_string (advance (advance start t) m)
        ≡ field_read (advance (advance start t) m) u (30 + length t + length m + length u)
    pub payload :
        get_string (advance (advance (advance start t) m) u)
        ≡ field_read
            (advance (advance (advance start t) m) u)
            p
            (32 + length t + length m + length u + length p)
    pub headers :
        get_string (advance (advance (advance (advance start t) m) u) p)
        ≡ field_read
            (advance (advance (advance (advance start t) m) u) p)
            h
            (34 + length t + length m + length u + length p + length h)

  at :
      (f : TopicMessage) (front s back : Bytes) (n : ℕ)
      → Reading f front (field s ++ back)
      → f.buffer_length ≡ limit
      → length s ≤ 65534
      → length front + 2 + length s ≡ n
      → get_string f ≡ field_read f s n
  at f front s back n r l fits e = ground (arith, get_string-prefix f front s back r (omega arith))

  pub grows : (front s : Bytes) → length (front ++ field s) ≡ length front + 2 + length s
  grows front s = omega (arith, length-append {0} front (field s), length-field s)

  pub answers : limit ≤ length whole → Answers
  unfolding after_block
  answers within =
      let f0 = topic_block stamp sequence in
      let f1 = f0 ++ field t in
      let f2 = f1 ++ field m in
      let f3 = f2 ++ field u in
      let f4 = f3 ++ field p in
      let n1 = grows f0 t in
      let n2 = grows f1 m in
      let n3 = grows f2 u in
      let n4 = grows f3 p in
      let r0 = start-Reading within in
      let r1 = advance-Reading start f0 t _ r0 in
      let r2 = advance-Reading _ f1 m _ r1 in
      let r3 = advance-Reading _ f2 u _ r2 in
      let r4 = advance-Reading _ f3 p _ r3 in
      record {
        topic = at start f0 t _ _ r0 refl fit.0 (omega arith);
        message_type = at _ f1 m _ _ r1 refl fit.1 (omega arith);
        uuid = at _ f2 u _ _ r2 refl fit.2 (omega arith);
        payload = at _ f3 p _ _ r3 refl fit.3 (omega arith);
        headers = at _ f4 h _ _ r4 refl fit.4 (omega arith);
      }

  pub cut_length : limit ≤ length whole → length (take limit whole) ≡ limit
  cut_length within = omega (arith, length-take {0} limit whole)

pub regrouped :
    (stamp sequence : ℕ) (t m u p h : Bytes) (fit : Fit t m u p h) (limit : ℕ)
    → topic_message_bytes stamp sequence t m u p h ≡ whole stamp sequence t m u p h fit limit
unfolding topic_message_bytes after_block
regrouped stamp sequence t m u p h fit limit = simp (append_assoc, append-nil)
