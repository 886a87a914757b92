-- ===== src/Json.antt =====
-- What src/sbe_encoder.cpp, src/cluster_client.cpp and src/commit_manager.cpp use of the JsonCpp
-- library, and std::stoull. The library's code is not part of the repository: its calls are
-- parameters. `none` is an exception.
use aeron_cluster_client_cpp.Prelude.{ℕ, Bytes, Bool, Option}

pub record JsonLib : Type 1 where
  pub Value : Type 0
  -- `Json::parseFromStream`; `none` is the result false.
  pub parse_from_stream : Bytes → Option Value
  pub is_object : Value → Bool
  -- `isMember` and `operator[]` throw on a value that is neither an object nor null.
  pub is_member : Value → Bytes → Option Bool
  pub member : Value → Bytes → Option Value
  pub is_uint64 : Value → Bool
  pub as_uint64 : Value → ℕ
  pub is_int64 : Value → Bool
  -- `asInt64` and `asDouble`, cast to `uint64_t`.
  pub as_int64 : Value → ℕ
  pub is_numeric : Value → Bool
  pub as_double : Value → ℕ
  pub is_string : Value → Bool
  pub as_string : Value → Bytes
  -- `asString` of any value.
  pub to_text : Value → Option Bytes
  pub stoull : Bytes → Option ℕ

-- A member of a JSON object that the program writes.
pub data Scalar : Type 0 where
  text : Bytes → Scalar
  number : ℕ → Scalar
  null : Scalar
