-- ===== src/Client/Reassembler.antt =====
-- LocalFragmentReassembler of src/cluster_client.cpp. The sink is handed at most one message for a
-- fragment; it is the answer here.
pub mod Streams
use aeron_cluster_client_cpp.Prelude.{
  ℕ, ◌/◌, ◌%◌, Bytes, List, [], ◌∷◌, ◌++◌, Bool, ◌&&◌, ◌==◌, Option, none, some, if◌then◌else◌,
}

-- `flags & 0x80`
abbrev pub has_begin : ℕ → Bool
has_begin flags = flags / 128 % 2 == 1

-- `flags & 0x40`
abbrev pub has_end : ℕ → Bool
has_end flags = flags / 64 % 2 == 1

-- The accumulator after a fragment, and what the sink is called with.
unfoldable pub on_fragment : ℕ → Bytes → Bytes → Bytes × Option Bytes
on_fragment flags src acc =
    let grown = (if has_begin flags then [] else acc) ++ src in
    if has_begin flags && has_end flags
    then (acc, some src)
    else if has_end flags
    then ([], some grown)
    else (grown, none)

abbrev pub deliver : Option Bytes → List Bytes → List Bytes
deliver none rest = rest
deliver (some message) rest = message ∷ rest

-- The fragments of a subscription in order: the accumulator at the end, and the messages.
unfoldable pub on_fragments : List (ℕ × Bytes) → Bytes → Bytes × List Bytes
unfolding on_fragment
on_fragments [] acc = (acc, [])
on_fragments ((flags, src) ∷ rest) acc =
    let (acc1, message) = on_fragment flags src acc in
    let (last, messages) = on_fragments rest acc1 in (last, deliver message messages)
