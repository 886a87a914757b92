-- ===== src/Orders/Exchange/Loss.antt =====
-- What is left of an order after to_json and from_json.
use aeron_cluster_client_cpp.Prelude.{
  ◌≡◌, refl, ap, ◌∙◌, Bytes, List, [], false, bytes_eq, str, none, some,
}
use aeron_cluster_client_cpp.Prelude.Int.{pos}
use aeron_cluster_client_cpp.Prelude.Dict.{lookup}
use aeron_cluster_client_cpp.Orders.{Doubles, Order}
use aeron_cluster_client_cpp.Orders.Exchange.{
  OrderJson, ◌>>=◌, root_members, to_json, get_text, get_double, get_int, get_stop_price,
  get_expiry, get_metadata, read_order, from_json,
}

-- The order that from_json makes of an object with none of the members that it looks for.
abbrev pub blank_order : (doubles : Doubles) → Order doubles.Double
blank_order doubles = record {
  id = [];
  client_order_uuid = [];
  base_token = [];
  quote_token = [];
  side = [];
  quantity = doubles.nought;
  quantity_token = [];
  limit_price = doubles.nought;
  limit_price_token = [];
  stop_price = none;
  customer_id = pos 0;
  user_id = pos 0;
  account_id = pos 0;
  status = str "CREATED";
  order_type = str "LIMIT";
  time_in_force = str "GTC";
  timestamp = pos 0;
  updated_at = pos 0;
  expiry_timestamp = none;
  request_source = str "API";
  request_channel = str "cpp_client";
  base_token_usd_rate = doubles.nought;
  quote_token_usd_rate = doubles.unit;
  identifier = [];
  message_identifier = [];
  message = [];
  headers = [];
  metadata = [];
}

-- JsonCpp reads back an object with these members as one with no member that was not written.
abbrev pub ReadsBack : {D : Type 0} (lib : OrderJson D) → List (Bytes × lib.Value) → Type 0
ReadsBack lib fields =
    (v : lib.Value) × (lib.parse (lib.write_string (lib.object fields)) ≡ some v)
    × ((key : Bytes) → lookup key fields ≡ none → lib.find v key ≡ some none)

module _ (doubles : Doubles) (lib : OrderJson doubles.Double) where
  -- Nothing but these three members is found.
  OnlyRoot : lib.Value → Type 0
  OnlyRoot v =
      (key : Bytes)
      → bytes_eq (str "uuid") key ≡ false
      → bytes_eq (str "msg_type") key ≡ false
      → bytes_eq (str "message") key ≡ false
      → lib.find v key ≡ some none

  found :
      (o : Order doubles.Double) (v : lib.Value)
      → ((key : Bytes)
          → lookup key (root_members doubles lib o) ≡ none
          → lib.find v key ≡ some none)
      → OnlyRoot v
  unfolding OnlyRoot lookup root_members
  found o v h key a b c = h key (rw a (rw b (rw c refl)))

  read_nothing :
      (v : lib.Value) → OnlyRoot v → read_order doubles lib v ≡ some (blank_order doubles)
  unfolding OnlyRoot read_order get_text get_double get_int get_stop_price get_expiry get_metadata
      bytes_eq
  read_nothing v h = rw (
    h (str "id") refl refl refl,
    h (str "base_token") refl refl refl,
    h (str "quote_token") refl refl refl,
    h (str "side") refl refl refl,
    h (str "quantity") refl refl refl,
    h (str "order_type") refl refl refl,
    h (str "quantity_token") refl refl refl,
    h (str "limit_price") refl refl refl,
    h (str "limit_price_token") refl refl refl,
    h (str "customer_id") refl refl refl,
    h (str "user_id") refl refl refl,
    h (str "account_id") refl refl refl,
    h (str "status") refl refl refl,
    h (str "timestamp") refl refl refl,
    h (str "updated_at") refl refl refl,
    h (str "client_order_uuid") refl refl refl,
    h (str "time_in_force") refl refl refl,
    h (str "request_source") refl refl refl,
    h (str "request_channel") refl refl refl,
    h (str "base_token_usd_rate") refl refl refl,
    h (str "quote_token_usd_rate") refl refl refl,
    h (str "stop_price") refl refl refl,
    h (str "expiry_timestamp") refl refl refl,
    h (str "metadata") refl refl refl,
  )

  -- From what JsonCpp reads back from_json makes the same order for every order that to_json has
  -- written: one with no identifier, tokens, side, quantity or prices, of type LIMIT.
  pub from_json-to_json :
      (o : Order doubles.Double)
      → ReadsBack lib (root_members doubles lib o)
      → from_json doubles lib (to_json doubles lib o) ≡ some (blank_order doubles)
  unfolding from_json to_json
  from_json-to_json o h =
      let (v, read, none_else) = h in
      ap (λ x. x >>= read_order doubles lib) read ∙ read_nothing v (found o v none_else)
