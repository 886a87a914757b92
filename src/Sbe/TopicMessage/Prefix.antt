-- ===== src/Sbe/TopicMessage/Prefix.antt =====
-- What `get_string` reads from the first `limit` bytes of a message.
use aeron_cluster_client_cpp.Prelude.{
  ℕ, ◌+◌, ◌-◌, ◌≤◌, ◌≡◌, refl, sym, ap, ◌∙◌, Bytes, ◌++◌, length, take, drop, le, read_le,
  read_le-append, append_assoc, length-append, take-append_more, drop-append, take-append, arith,
  leb, if◌then◌else◌, ◌<◌,
}
use aeron_cluster_client_cpp.Sbe.Exception.{buffer_too_short}
use aeron_cluster_client_cpp.Sbe.Read.{got, threw, past_end}
use aeron_cluster_client_cpp.Sbe.TopicMessage.{TopicMessage}
use aeron_cluster_client_cpp.Sbe.TopicMessage.Getters.{get_string}
use aeron_cluster_client_cpp.Sbe.TopicMessage.Fields.{field, length-field}

-- The position lies behind `front`, and `ahead` is what the whole message has from there.
pub record Reading (t : TopicMessage) (front ahead : Bytes) : Type 0 where
  pub buffer : t.buffer ≡ take t.buffer_length (front ++ ahead)
  pub position : t.position ≡ length front
  pub room : length t.buffer ≡ t.buffer_length

abbrev pub advance : TopicMessage → Bytes → TopicMessage
advance t s = record t { position = t.position + 2 + length s }

pub prefix_intact :
    (front s back : Bytes) (limit : ℕ)
    → length front + 2 ≤ limit
    → length s < 65536
    → read_le 2 (length front) (take limit (front ++ (field s ++ back))) ≡ length s
prefix_intact front s back limit h fits =
    ap (read_le 2 (length front)) split
    ∙ read_le-append 2 (length s) front _ (length front) refl (omega arith)
  where
    split :
        take limit (front ++ (field s ++ back))
        ≡ front ++ (le 2 (length s) ++ take (limit - length front - 2) (s ++ back))
    split =
        take-append_more front (field s ++ back) limit (omega arith)
        ∙ ap (λ (b : Bytes). front ++ take (limit - length front) b)
            (append_assoc (le 2 (length s)) s back)
        ∙ ap (◌++◌ front)
            (take-append_more (le 2 (length s)) (s ++ back) (limit - length front) (omega arith))

data_intact :
    (front s back : Bytes) (limit : ℕ)
    → length front + 2 + length s ≤ limit
    → take (length s) (drop (length front + 2) (take limit (front ++ (field s ++ back)))) ≡ s
data_intact front s back limit h =
    ap (λ (b : Bytes). take (length s) (drop (length front + 2) b)) split
    ∙ ap (take (length s)) (drop-append head (s ++ rest) (length front + 2) (omega (arith, wide)))
    ∙ take-append s rest (length s) refl
  where
    head : Bytes
    head = front ++ le 2 (length s)

    wide : length head ≡ length front + 2
    wide = length-append front (le 2 (length s))

    rest : Bytes
    rest = take (limit - length head - length s) back

    split : take limit (front ++ (field s ++ back)) ≡ head ++ (s ++ rest)
    split =
        ap (λ (b : Bytes). take limit (front ++ b)) (append_assoc (le 2 (length s)) s back)
        ∙ ap (take limit) (sym (append_assoc front (le 2 (length s)) (s ++ back)))
        ∙ take-append_more head (s ++ back) limit (omega (arith, wide))
        ∙ ap (◌++◌ head) (take-append_more s back (limit - length head) (omega (arith, wide)))

-- `get_string` returns the field if all of it lies within the limit, throws if its length does not,
-- and reads past the end if the limit lies between the two.
pub get_string-prefix :
    (t : TopicMessage) (front s back : Bytes)
    → Reading t front (field s ++ back)
    → length s < 65536
    → get_string t ≡ (
        if leb (length front + 2 + length s) t.buffer_length
        then got (s, advance t s)
        else if leb (length front + 2) t.buffer_length
        then past_end
        else threw buffer_too_short)
unfolding get_string
get_string-prefix t front s back r fits = ground (
  arith,
  r.buffer,
  r.position,
  r.room,
  prefix_intact front s back t.buffer_length,
  data_intact front s back t.buffer_length,
)

pub advance-Reading :
    (t : TopicMessage) (front s back : Bytes)
    → Reading t front (field s ++ back)
    → Reading (advance t s) (front ++ field s) back
advance-Reading t front s back r = record {
  buffer = r.buffer ∙ ap (take t.buffer_length) (sym (append_assoc front (field s) back));
  room = r.room;
  position = omega (arith, r.position, length-append {0} front (field s), length-field s);
}
