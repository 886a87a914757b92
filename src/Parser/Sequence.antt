-- ===== src/Parser/Sequence.antt =====
-- The search for `_sequence_number` in the payload of a TopicMessage (src/sbe_encoder.cpp).
use aeron_cluster_client_cpp.Prelude.{
  ℕ, zero, suc, Bytes, Option, none, some, ltb, if◌then◌else◌, str, is_empty,
}
use aeron_cluster_client_cpp.Json.{JsonLib}

-- `none` is an exception.
infixl 5 ◌>>=◌
abbrev ◌>>=◌ {ℓ κ} : {A : Type ℓ} {B : Type κ} → Option A → (A → Option B) → Option B
some a >>= f = f a
none >>= f = none

abbrev or_zero : Option ℕ → ℕ
or_zero none = 0
or_zero (some n) = n

module _ (lib : JsonLib) where
  open lib use {
    Value, parse_from_stream, is_object, is_member, member, is_uint64, as_uint64, is_int64,
    as_int64, is_numeric, as_double, is_string, as_string, stoull,
  }

  -- The number that a value stands for, in the order of the tests.
  unfoldable pub sequence_value : Value → ℕ
  sequence_value v =
      if is_uint64 v
      then as_uint64 v
      else if is_int64 v
      then as_int64 v
      else if is_numeric v
      then as_double v
      else if is_string v
      then or_zero (stoull (as_string v))
      else 0

  abbrev member_value : Value → Option ℕ
  unfolding sequence_value
  member_value obj = do v ← member obj (str "_sequence_number"); some (sequence_value v)

  abbrev present_value : Value → Option ℕ
  present_value obj = do
    found ← is_member obj (str "_sequence_number")
    if found then member_value obj else some 0

  -- The lambda `extractSequence`.
  unfoldable pub extract_sequence : Value → Option ℕ
  unfolding member_value
  extract_sequence obj = if is_object obj then present_value obj else some 0

  abbrev object_member : Value → Option (Option Value)
  object_member obj = do v ← member obj (str "message"); some (if is_object v then some v else none)

  -- `obj.isMember("message") && obj["message"].isObject()`, and then `obj["message"]`.
  unfoldable pub message_object : Value → Option (Option Value)
  message_object obj = do
    found ← is_member obj (str "message")
    if found then object_member obj else some none

  -- Location 1: the top level.
  unfoldable pub top_sequence : Value → Option ℕ
  unfolding extract_sequence
  top_sequence obj = do
    found ← is_member obj (str "_sequence_number")
    if found then extract_sequence obj else some 0

  -- Locations 2 to 4: `depth` objects named "message", one in the other.
  unfoldable pub nested_sequence : ℕ → Value → Option ℕ
  unfolding extract_sequence message_object
  nested_sequence zero obj = extract_sequence obj
  nested_sequence (suc depth) obj = do
    inner ← message_object obj
    elim inner [ none ↦ some 0 | some v ↦ nested_sequence depth v ]

  abbrev first_found : Option ℕ → Option ℕ → Option ℕ
  first_found first later = do n ← first; if ltb 0 n then some n else later

  unfoldable pub search_sequence : Value → Option ℕ
  unfolding top_sequence nested_sequence
  search_sequence obj = first_found (top_sequence obj) (
      first_found (nested_sequence 1 obj)
        (first_found (nested_sequence 2 obj) (nested_sequence 3 obj)))

  -- `result.sequence_number`: 0 where nothing is found, or where anything throws.
  unfoldable pub payload_sequence : Bytes → ℕ
  unfolding search_sequence
  payload_sequence payload =
      let parsed : ℕ = elim (parse_from_stream payload) [
        | none ↦ 0
        | some v ↦ or_zero (search_sequence v)
      ] in
      if is_empty payload then 0 else parsed
