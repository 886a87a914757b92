-- ===== src/Client/Reassembler/Streams.antt =====
-- What the reassembler delivers from a stream of fragments.
use aeron_cluster_client_cpp.Prelude.{
  ℕ, Bytes, List, [], ◌∷◌, ◌++◌, true, false, ◌≡◌, refl, ap, ◌∙◌, append_assoc,
}
use aeron_cluster_client_cpp.Client.Reassembler.{has_begin, has_end, on_fragments}

-- The fragments behind the first one of a message, up to the one with the end flag, and the bytes
-- they carry.
pub data Tail : List (ℕ × Bytes) → Bytes → Type 0 where
  last :
      (flags : ℕ) (src : Bytes)
      → has_begin flags ≡ false
      → has_end flags ≡ true
      → Tail ((flags, src) ∷ []) src
  middle :
      (flags : ℕ) (src : Bytes) (rest : List (ℕ × Bytes)) (text : Bytes)
      → has_begin flags ≡ false
      → has_end flags ≡ false
      → Tail rest text
      → Tail ((flags, src) ∷ rest) (src ++ text)

-- The fragments of one message.
pub data Whole : List (ℕ × Bytes) → Bytes → Type 0 where
  single :
      (flags : ℕ) (src : Bytes)
      → has_begin flags ≡ true
      → has_end flags ≡ true
      → Whole ((flags, src) ∷ []) src
  parts :
      (flags : ℕ) (src : Bytes) (rest : List (ℕ × Bytes)) (text : Bytes)
      → has_begin flags ≡ true
      → has_end flags ≡ false
      → Tail rest text
      → Whole ((flags, src) ∷ rest) (src ++ text)

-- The fragments of messages, one message after the other.
pub data Stream : List (ℕ × Bytes) → List Bytes → Type 0 where
  done : Stream [] []
  next :
      (fragments rest all : List (ℕ × Bytes)) (text : Bytes) (texts : List Bytes)
      → all ≡ fragments ++ rest
      → Whole fragments text
      → Stream rest texts
      → Stream all (text ∷ texts)

-- A tail is delivered behind what has been accumulated.
on_fragments-Tail :
    (fragments more : List (ℕ × Bytes)) (text acc : Bytes)
    → Tail fragments text
    → on_fragments (fragments ++ more) acc
      ≡ ((on_fragments more []).0, (acc ++ text) ∷ (on_fragments more []).1)
unfolding on_fragments
on_fragments-Tail fragments more text acc (last flags src b e) = rw (b, e) refl
on_fragments-Tail fragments more text acc (middle flags src rest text' b e t) =
    rw (b, e, on_fragments-Tail rest more text' (acc ++ src) t, append_assoc acc src text') refl

-- One message, whatever the accumulator holds.
on_fragments-Whole :
    (fragments more : List (ℕ × Bytes)) (text acc : Bytes)
    → Whole fragments text
    → (acc' : Bytes) × ((on_fragments (fragments ++ more) acc).1
        ≡ text ∷ (on_fragments more acc').1)
unfolding on_fragments
on_fragments-Whole fragments more text acc (single flags src b e) = (acc, rw (b, e) refl)
on_fragments-Whole fragments more text acc (parts flags src rest text' b e t) =
    ([], rw (b, e, on_fragments-Tail rest more text' src t) refl)

-- From the fragments of messages in order, each message in a single fragment or in a first, any
-- number of middle and a last fragment, the reassembler delivers exactly the messages, in order,
-- whatever it has accumulated before.
pub on_fragments-Stream :
    (fragments : List (ℕ × Bytes)) (texts : List Bytes) (acc : Bytes)
    → Stream fragments texts
    → (on_fragments fragments acc).1 ≡ texts
unfolding on_fragments
on_fragments-Stream fragments texts acc done = refl
on_fragments-Stream fragments texts acc (next first rest all text texts' e w s) =
    let (acc', delivered) = on_fragments-Whole first rest text acc w in
    rw (e, delivered) (ap (◌∷◌ text) (on_fragments-Stream rest texts' acc' s))

-- Fragments without the first one of their message are not dropped: with an empty accumulator, what
-- they carry is delivered as a message of its own, and the messages behind it follow.
pub on_fragments_headless :
    (fragments rest : List (ℕ × Bytes)) (text : Bytes) (texts : List Bytes)
    → Tail fragments text
    → Stream rest texts
    → (on_fragments (fragments ++ rest) []).1 ≡ text ∷ texts
on_fragments_headless fragments rest text texts t s =
    ap (λ (r : Bytes × List Bytes). r.1) (on_fragments-Tail fragments rest text [] t)
    ∙ ap (◌∷◌ text) (on_fragments-Stream rest texts [] s)
