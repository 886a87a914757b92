-- ===== src/Sbe/TopicMessage/Room.antt =====
-- What `put_field` writes into a flyweight whose limit may lie before the end of its buffer.
use aeron_cluster_client_cpp.Prelude.{
  ℕ, ◌+◌, ◌≤◌, ◌≡◌, ap, ◌∙◌, Bytes, [], ◌∷◌, ◌++◌, length, drop, write_at, le, length-append,
  length-drop, write_at-nil, arith,
}
use aeron_cluster_client_cpp.Sbe.Exception.{ok}
use aeron_cluster_client_cpp.Sbe.TopicMessage.{TopicMessage, put_field}
use aeron_cluster_client_cpp.Sbe.TopicMessage.Fields.{field, place, two_writes, length-field}

-- `front` has been written, `back` is the rest of the buffer, and the flyweight may write `left` of
-- its bytes.
pub record Room (t : TopicMessage) (front back : Bytes) (left : ℕ) : Type 0 where
  pub buffer : t.buffer ≡ front ++ back
  pub position : t.position ≡ length front
  pub limit : t.buffer_length ≡ length front + left
  pub enough : left ≤ length back

put_field-place :
    (t : TopicMessage) (s : Bytes)
    → t.position + 2 + length s ≤ t.buffer_length
    → put_field s t ≡ ok (place t s)
unfolding put_field place
put_field-place t [] h =
    ground (arith, write_at-nil {0} (write_at t.buffer t.position (le 2 0)) (t.position + 2))
put_field-place t (b ∷ s) h = ground arith

-- A field for which there is room is placed, and `more` bytes of room are left.
pub put_field-Room :
    (t : TopicMessage) (front back s : Bytes) (left more : ℕ)
    → Room t front back left
    → left ≡ 2 + length s + more
    → (put_field s t ≡ ok (place t s))
      × Room (place t s) (front ++ field s) (drop (2 + length s) back) more
unfolding place
put_field-Room t front back s left more r e = (
  put_field-place t s (omega (arith, r.position, r.limit)),
  record {
    buffer =
        ap (λ (b : Bytes). write_at (write_at b t.position (le 2 (length s))) (t.position + 2) s)
          r.buffer
        ∙ two_writes front back s t.position r.position (omega (arith, r.enough));
    position = omega (arith, r.position, length-append {0} front (field s), length-field s);
    limit = omega (arith, r.limit, length-append {0} front (field s), length-field s);
    enough = omega (arith, r.enough, length-drop {0} (2 + length s) back);
  },
)
