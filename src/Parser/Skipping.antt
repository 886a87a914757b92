-- ===== src/Parser/Skipping.antt =====
-- Reading a variable field of include/model/TopicMessage.h without its string, and `decodeLength`.
use aeron_cluster_client_cpp.Prelude.{
  ℕ, ◌+◌, ◌-◌, ◌≤◌, ◌<◌, ◌≡◌, refl, sym, ap, subst, ◌∙◌, Bytes, [], ◌∷◌, ◌++◌, length, take, drop,
  zero, suc, leb, ltb, if◌then◌else◌, read_le, arith,
}
use aeron_cluster_client_cpp.Sbe.Exception.{buffer_too_short}
use aeron_cluster_client_cpp.Sbe.Read.{Read, got, threw, past_end, checked, ◌>>=◌}
use aeron_cluster_client_cpp.Sbe.TopicMessage.{
  TopicMessage, wrap_for_decode, encoded_length, compute_length,
}
use aeron_cluster_client_cpp.Sbe.TopicMessage.Extent.{
  Extent, extent, whole_fields, data_cut, length_cut,
}
use aeron_cluster_client_cpp.Sbe.TopicMessage.Fields.{field}
use aeron_cluster_client_cpp.Sbe.TopicMessage.Prefix.{
  Reading, advance, advance-Reading, prefix_intact,
}
use aeron_cluster_client_cpp.Sbe.TopicMessage.Getters.{get_string}
use aeron_cluster_client_cpp.Sbe.TopicMessage.Skipping.{
  skip_field, field_pointer, field_view, copy_field, data_length, skip, decode_length,
}
use aeron_cluster_client_cpp.Encoder.Cut.{topic_block, topic_message_bytes, Fit, compute_length-Fit}
use aeron_cluster_client_cpp.Parser.Opened.{
  start, start-Reading, after_block, whole, regrouped, wrap_for_decode_lem, grows,
}

-- Stepping over a field throws if its length lies within the limit and its data does not, and reads
-- past the end if not even its length does.
skip_field-prefix :
    (t : TopicMessage) (front s back : Bytes)
    → Reading t front (field s ++ back)
    → length s < 65536
    → skip_field t ≡ (
        if leb (length front + 2 + length s) t.buffer_length
        then got (length s, advance t s)
        else if leb (length front + 2) t.buffer_length
        then threw buffer_too_short
        else past_end)
unfolding skip_field
skip_field-prefix t front s back r fits =
    ground (arith, r.buffer, r.position, r.room, prefix_intact front s back t.buffer_length)

-- The pointer is where the view begins, if the view is taken without an exception.
field_pointer-field_view :
    (t : TopicMessage) (view : ℕ × ℕ) (t1 : TopicMessage)
    → field_view t ≡ got (view, t1)
    → field_pointer t ≡ got (view.0, t1)
unfolding field_view field_pointer
field_pointer-field_view t view t1 e = ground (arith, e)

take_shorter :
    (size n : ℕ) (bytes : Bytes)
    → take (if ltb size n then size else n) bytes ≡ take size (take n bytes)
take_shorter zero n bytes = ground arith
take_shorter (suc size) zero bytes = ground arith
take_shorter (suc size) (suc n) [] = ground arith
take_shorter (suc size) (suc n) (b ∷ bytes) = ground (arith, take_shorter size n bytes)

-- A copy is the beginning of the string, and moves the flyweight past all of it, where reading the
-- string is no read past the end and throws nothing.
copy_field-get_string :
    (size : ℕ) (t : TopicMessage) (s : Bytes) (t1 : TopicMessage)
    → get_string t ≡ got (s, t1)
    → copy_field size t ≡ (
        let n = read_le 2 t.position t.buffer in
        got (take size s, (if ltb size n then size else n), t1))
unfolding copy_field get_string data_length
copy_field-get_string size t s t1 e =
    ground
      (arith, e, take_shorter size (read_le 2 t.position t.buffer) (drop (t.position + 2) t.buffer))

module _ (stamp sequence : ℕ) (t m u p h : Bytes) (fit : Fit t m u p h) (limit : ℕ) where
  -- A field that ends at `n`.
  abbrev field_skipped : TopicMessage → Bytes → ℕ → Read (ℕ × TopicMessage)
  field_skipped f s n =
      if leb n limit
      then got (length s, advance f s)
      else if leb (n - length s) limit
      then threw buffer_too_short
      else past_end

  at :
      (f : TopicMessage) (front s back : Bytes) (n : ℕ)
      → Reading f front (field s ++ back)
      → f.buffer_length ≡ limit
      → length s ≤ 65534
      → length front + 2 + length s ≡ n
      → skip_field f ≡ field_skipped f s n
  at f front s back n r l fits e = ground (arith, skip_field-prefix f front s back r (omega arith))

  -- What `decodeLength` makes of the message, by the extent of its five fields.
  abbrev stepped : Extent → Read ℕ
  stepped whole_fields = got (26 + (length t + length m + length u + length p + length h))
  stepped data_cut = threw buffer_too_short
  stepped length_cut = past_end

  skip-start :
      limit ≤ length (whole stamp sequence t m u p h fit limit)
      → (do s ← skip (start stamp sequence t m u p h fit limit); got (encoded_length s))
        ≡ stepped (extent limit 24 (t ∷ m ∷ u ∷ p ∷ h ∷ []))
  unfolding skip encoded_length after_block
  skip-start within =
      let f0 = topic_block stamp sequence in
      let f1 = f0 ++ field t in
      let f2 = f1 ++ field m in
      let f3 = f2 ++ field u in
      let f4 = f3 ++ field p in
      let s0 = start stamp sequence t m u p h fit limit in
      let n1 = grows stamp sequence t m u p h fit limit f0 t in
      let n2 = grows stamp sequence t m u p h fit limit f1 m in
      let n3 = grows stamp sequence t m u p h fit limit f2 u in
      let n4 = grows stamp sequence t m u p h fit limit f3 p in
      let r0 = start-Reading stamp sequence t m u p h fit limit within in
      let r1 = advance-Reading s0 f0 t _ r0 in
      let r2 = advance-Reading _ f1 m _ r1 in
      let r3 = advance-Reading _ f2 u _ r2 in
      let r4 = advance-Reading _ f3 p _ r3 in
      ground (
        arith,
        at s0 f0 t _ (26 + length t) r0 refl fit.0 (omega arith),
        at _ f1 m _ (28 + length t + length m) r1 refl fit.1 (omega arith),
        at _ f2 u _ (30 + length t + length m + length u) r2 refl fit.2 (omega arith),
        at _ f3 p _ (32 + length t + length m + length u + length p) r3 refl fit.3 (omega arith),
        at _ f4 h _ (34 + length t + length m + length u + length p + length h) r4 refl fit.4
            (omega arith),
      )

  decode_length-start :
      24 ≤ limit
      → limit ≤ length (whole stamp sequence t m u p h fit limit)
      → (do
        f ←
            checked
              (wrap_for_decode (take limit (whole stamp sequence t m u p h fit limit)) 8 16 1 limit)
        decode_length f)
        ≡ stepped (extent limit 24 (t ∷ m ∷ u ∷ p ∷ h ∷ []))
  unfolding decode_length
  decode_length-start long within =
      let w =
        wrap_for_decode_lem (take limit (whole stamp sequence t m u p h fit limit)) limit long in
      rw (w, w) (skip-start within)

-- What `decodeLength` makes of a message with five strings, by the extent of its fields.
abbrev pub measured : Bytes → Bytes → Bytes → Bytes → Bytes → Extent → Read ℕ
measured t m u p h whole_fields =
    checked (compute_length (length t) (length m) (length u) (length p) (length h))
measured t m u p h data_cut = threw buffer_too_short
measured t m u p h length_cut = past_end

stepped-measured :
    (stamp sequence : ℕ) (t m u p h : Bytes) (fit : Fit t m u p h) (limit : ℕ) (x : Extent)
    → stepped stamp sequence t m u p h fit limit x ≡ measured t m u p h x
stepped-measured stamp sequence t m u p h fit limit whole_fields =
    sym (ap checked (compute_length-Fit t m u p h fit))
stepped-measured stamp sequence t m u p h fit limit data_cut = refl
stepped-measured stamp sequence t m u p h fit limit length_cut = refl

-- Of a TopicMessage whose five strings have at most 65534 bytes each, cut off anywhere behind its
-- fixed block, `decodeLength` is the length that `computeLength` gives of the five strings if all of
-- them are there; if the first that is not whole still has its length, it throws that the buffer is
-- too short; and if not even its length is there, it reads past the end.
pub decode_length-compute_length :
    (stamp sequence : ℕ) (t m u p h : Bytes) (limit : ℕ)
    → Fit t m u p h
    → 24 ≤ limit
    → limit ≤ length (topic_message_bytes stamp sequence t m u p h)
    → (do
      f ←
          checked (
            wrap_for_decode
              (take limit (topic_message_bytes stamp sequence t m u p h))
              8
              16
              1
              limit)
      decode_length f)
      ≡ measured t m u p h (extent limit 24 (t ∷ m ∷ u ∷ p ∷ h ∷ []))
decode_length-compute_length stamp sequence t m u p h limit fit long within =
    let e = regrouped stamp sequence t m u p h fit limit in
    ap
      (λ (b : Bytes). do f ← checked (wrap_for_decode (take limit b) 8 16 1 limit); decode_length f)
      e
    ∙ decode_length-start stamp sequence t m u p h fit limit long
        (subst (λ b. limit ≤ length b) e within)
    ∙ stepped-measured stamp sequence t m u p h fit limit _
