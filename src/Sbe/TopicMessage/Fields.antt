-- ===== src/Sbe/TopicMessage/Fields.antt =====
-- What `put_string` writes: behind what is already written, the length prefix and the bytes.
use aeron_cluster_client_cpp.Prelude.{
  ℕ, ◌+◌, ◌≤◌, ◌≡◌, sym, ap, ◌∙◌, Bytes, [], ◌∷◌, ◌++◌, length, drop, write_at, le, append_assoc,
  length-append, length-drop, write_at-append, write_at-zero, arith, drop-drop, write_at-nil,
}
use aeron_cluster_client_cpp.Sbe.Exception.{ok}
use aeron_cluster_client_cpp.Sbe.TopicMessage.{TopicMessage, put_string}

-- A variable field on the wire.
abbrev pub field : Bytes → Bytes
field s = le 2 (length s) ++ s

-- `front` has been written, and `back` is the room that is left.
pub record Writing (t : TopicMessage) (front back : Bytes) : Type 0 where
  pub buffer : t.buffer ≡ front ++ back
  pub position : t.position ≡ length front
  pub room : t.buffer_length ≡ length front + length back

-- The flyweight after a field that fits.
unfoldable pub place : TopicMessage → Bytes → TopicMessage
place t s = record t {
  buffer = write_at (write_at t.buffer t.position (le 2 (length s))) (t.position + 2) s;
  position = t.position + 2 + length s;
}

pub length-field : (s : Bytes) → length (field s) ≡ 2 + length s
length-field s = omega (arith, length-append {0} (le 2 (length s)) s)

pub two_writes :
    (front back s : Bytes) (n : ℕ)
    → n ≡ length front
    → 2 + length s ≤ length back
    → write_at (write_at (front ++ back) n (le 2 (length s))) (n + 2) s
      ≡ (front ++ field s) ++ drop (2 + length s) back
two_writes front back s n e h =
    ap (λ (b : Bytes). write_at b (n + 2) s)
      (write_at-append front back prefix n e
        ∙ ap (◌++◌ front) (write_at-zero back prefix (omega arith))
        ∙ sym (append_assoc front prefix (drop 2 back)))
    ∙ write_at-append (front ++ prefix) (drop 2 back) s (n + 2)
        (omega (arith, length-append {0} front prefix))
    ∙ ap (◌++◌ (front ++ prefix))
        (write_at-zero (drop 2 back) s (omega (arith, length-drop {0} 2 back)))
    ∙ ap (λ (b : Bytes). (front ++ prefix) ++ (s ++ b)) (drop-drop 2 (length s) back)
    ∙ sym (append_assoc (front ++ prefix) s _)
    ∙ ap (λ (b : Bytes). b ++ drop (2 + length s) back) (append_assoc front prefix s)
  where
    prefix : Bytes
    prefix = le 2 (length s)

pub place-Writing :
    (t : TopicMessage) (front back s : Bytes)
    → Writing t front back
    → 2 + length s ≤ length back
    → Writing (place t s) (front ++ field s) (drop (2 + length s) back)
unfolding place
place-Writing t front back s w h = record {
  buffer =
      ap (λ (b : Bytes). write_at (write_at b t.position (le 2 (length s))) (t.position + 2) s)
        w.buffer
      ∙ two_writes front back s t.position w.position h;
  position = omega (arith, w.position, length-append {0} front (field s), length-field s);
  room = omega (
    arith,
    w.room,
    length-append {0} front (field s),
    length-field s,
    length-drop {0} (2 + length s) back,
  );
}

-- A string that fits the length type and the room is placed.
pub put_string-place :
    (t : TopicMessage) (front back s : Bytes)
    → Writing t front back
    → 2 + length s ≤ length back
    → length s ≤ 65534
    → put_string s t ≡ ok (place t s)
unfolding put_string place
put_string-place t front back [] w h fits = ground (
  arith,
  w.room,
  w.position,
  write_at-nil {0} (write_at t.buffer t.position (le 2 0)) (t.position + 2),
)
put_string-place t front back (b ∷ s) w h fits = ground (arith, w.room, w.position)
