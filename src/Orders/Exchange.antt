-- ===== src/Orders/Exchange.antt =====
-- Order::to_json and Order::from_json of src/order_types.cpp. The values of the JsonCpp library, its
-- writer and its reader are parameters.
pub mod Loss
use aeron_cluster_client_cpp.Prelude.{
  ℕ, zero, suc, ◌+◌, ◌/◌, ◌==◌, Bytes, List, [], ◌∷◌, Bool, true, false, not, str, if◌then◌else◌,
  Option, none, some,
}
use aeron_cluster_client_cpp.Prelude.Int.{ℤ, pos, negsuc}
use aeron_cluster_client_cpp.Prelude.Dict.{insert}
use aeron_cluster_client_cpp.Orders.{Doubles, Order}

pub record OrderJson (D : Type 0) : Type 1 where
  pub Value : Type 0
  -- An object with members, the last given first, and the values of texts and doubles.
  pub object : List (Bytes × Value) → Value
  pub text : Bytes → Value
  pub real : D → Value
  pub write_string : Value → Bytes
  -- `Json::Reader::parse`; `none` is the result false.
  pub parse : Bytes → Option Value
  -- `isMember` with `operator[]`, and `get`: `none` is an exception, of a value that is neither an
  -- object nor null, and `some none` is no such member.
  pub find : Value → Bytes → Option (Option Value)
  pub is_null : Value → Bool
  pub is_object : Value → Bool
  pub member_names : Value → List Bytes
  -- The conversions; `none` is an exception.
  pub as_string : Value → Option Bytes
  pub as_double : Value → Option D
  pub as_int_64 : Value → Option ℤ
  -- `std::to_string` of an integer, and of a double.
  pub to_string : ℤ → Bytes
  pub real_to_string : D → Bytes

-- -n
abbrev minus : ℕ → ℤ
minus zero = pos zero
minus (suc n) = negsuc n

-- `timestamp / 1000000` of an `int64_t`: towards zero.
abbrev pub div_million : ℤ → ℤ
div_million (pos n) = pos (n / 1000000)
div_million (negsuc n) = minus ((n + 1) / 1000000)

-- `identifier.c_str()` as a text: it ends before the first zero.
unfoldable pub c_str : Bytes → Bytes
c_str [] = []
c_str (c ∷ s) = let rest = c_str s in if c == 0 then [] else c ∷ rest

-- A call that may throw, then the rest.
infixl 20 ◌>>=◌
abbrev pub ◌>>=◌ : {A B : Type 0} → Option A → (A → Option B) → Option B
none >>= f = none
some a >>= f = f a

module _ (doubles : Doubles) (lib : OrderJson doubles.Double) where
  unfoldable pub order_details : Order doubles.Double → lib.Value
  order_details o =
      let token_pair = lib.object (
        (str "base_token", lib.text o.base_token)
        ∷ (str "quote_token", lib.text o.quote_token)
        ∷ []) in
      let quantity =
        lib.object
          ((str "token", lib.text o.base_token) ∷ (str "value", lib.real o.quantity) ∷ []) in
      lib.object (
        (str "token_pair", token_pair)
        ∷ (str "quantity", quantity)
        ∷ (str "side", lib.text o.side)
        ∷ (str "order_type", lib.text (str "market"))
        ∷ (str "quantity_value_str", lib.text (lib.real_to_string o.quantity))
        ∷ (str "client_order_id", lib.text o.client_order_uuid)
        ∷ [])

  unfoldable pub json_headers : Order doubles.Double → lib.Value
  json_headers o = lib.object (
      (str "origin", lib.text (str "fix"))
      ∷ (str "origin_name", lib.text (str "FIX_GATEWAY"))
      ∷ (str "origin_id", lib.text (c_str o.identifier))
      ∷ (str "connection_uuid", lib.text (str "130032"))
      ∷ (str "customer_id", lib.text (lib.to_string o.customer_id))
      ∷ (str "ip_address", lib.text (str "10.37.62.251"))
      ∷ (str "create_ts", lib.text (lib.to_string (div_million o.timestamp)))
      ∷ (str "auth_token", lib.text (str "Bearer xxx"))
      ∷ [])

  unfoldable pub root_members : Order doubles.Double → List (Bytes × lib.Value)
  unfolding order_details json_headers
  root_members o =
      let message_content =
        lib.object
          ((str "action", lib.text (str "CREATE")) ∷ (str "order_details", order_details o) ∷ []) in
      let nested_message =
        lib.object ((str "headers", json_headers o) ∷ (str "message", message_content) ∷ []) in
      (str "uuid", lib.text o.client_order_uuid)
      ∷ (str "msg_type", lib.text (str "D"))
      ∷ (str "message", nested_message)
      ∷ []

  unfoldable pub to_json : Order doubles.Double → Bytes
  unfolding root_members
  to_json o = lib.write_string (lib.object (root_members o))

  -- A member that was searched for, converted where it is there.
  abbrev pub converted : {A : Type 0} → (lib.Value → Option A) → A → Option lib.Value → Option A
  converted convert other none = some other
  converted convert other (some v) = convert v

  -- `root.get(key, other).asString()`, and the two like it.
  unfoldable pub get_text : lib.Value → Bytes → Bytes → Option Bytes
  get_text root key other = lib.find root key >>= converted lib.as_string other

  unfoldable pub get_double : lib.Value → Bytes → doubles.Double → Option doubles.Double
  get_double root key other = lib.find root key >>= converted lib.as_double other

  unfoldable pub get_int : lib.Value → Bytes → Option ℤ
  get_int root key = lib.find root key >>= converted lib.as_int_64 (pos 0)

  -- `root.isMember(key) && !root[key].isNull()` with the conversion.
  abbrev pub unless_null : {A : Type 0} → (lib.Value → Option A) → lib.Value → Option (Option A)
  unless_null convert v = if lib.is_null v then some none else (convert v >>= (λ x. some (some x)))

  unfoldable pub get_stop_price : lib.Value → Option (Option doubles.Double)
  get_stop_price root =
      lib.find root (str "stop_price") >>= converted (unless_null lib.as_double) none

  unfoldable pub get_expiry : lib.Value → Option (Option ℤ)
  get_expiry root =
      lib.find root (str "expiry_timestamp") >>= converted (unless_null lib.as_int_64) none

  -- The loop over the names of the members; a null value is the empty text.
  unfoldable pub read_metadata :
      lib.Value → List Bytes → List (Bytes × Bytes) → Option (List (Bytes × Bytes))
  unfolding insert
  read_metadata v [] m = some m
  read_metadata v (key ∷ keys) m = do x ← get_text v key []; read_metadata v keys (insert key x m)

  abbrev pub metadata_of : lib.Value → Option (List (Bytes × Bytes))
  metadata_of v = if lib.is_object v then read_metadata v (lib.member_names v) [] else some []

  unfoldable pub get_metadata : lib.Value → Option (List (Bytes × Bytes))
  unfolding read_metadata
  get_metadata root = lib.find root (str "metadata") >>= converted metadata_of []

  -- What from_json makes of the members of the root.
  unfoldable pub read_order : lib.Value → Option (Order doubles.Double)
  unfolding get_text get_double get_int get_stop_price get_expiry get_metadata
  read_order root = do
    id ← get_text root (str "id") []
    base_token ← get_text root (str "base_token") []
    quote_token ← get_text root (str "quote_token") []
    side ← get_text root (str "side") []
    quantity ← get_double root (str "quantity") doubles.nought
    order_type ← get_text root (str "order_type") (str "LIMIT")
    quantity_token ← get_text root (str "quantity_token") base_token
    limit_price ← get_double root (str "limit_price") doubles.nought
    limit_price_token ← get_text root (str "limit_price_token") quote_token
    customer_id ← get_int root (str "customer_id")
    user_id ← get_int root (str "user_id")
    account_id ← get_int root (str "account_id")
    status ← get_text root (str "status") (str "CREATED")
    timestamp ← get_int root (str "timestamp")
    updated_at ← get_int root (str "updated_at")
    client_order_uuid ← get_text root (str "client_order_uuid") []
    time_in_force ← get_text root (str "time_in_force") (str "GTC")
    request_source ← get_text root (str "request_source") (str "API")
    request_channel ← get_text root (str "request_channel") (str "cpp_client")
    base_token_usd_rate ← get_double root (str "base_token_usd_rate") doubles.nought
    quote_token_usd_rate ← get_double root (str "quote_token_usd_rate") doubles.unit
    stop_price ← get_stop_price root
    expiry_timestamp ← get_expiry root
    metadata ← get_metadata root
    some (record {
      id = id;
      client_order_uuid = client_order_uuid;
      base_token = base_token;
      quote_token = quote_token;
      side = side;
      quantity = quantity;
      quantity_token = quantity_token;
      limit_price = limit_price;
      limit_price_token = limit_price_token;
      stop_price = stop_price;
      customer_id = customer_id;
      user_id = user_id;
      account_id = account_id;
      status = status;
      order_type = order_type;
      time_in_force = time_in_force;
      timestamp = timestamp;
      updated_at = updated_at;
      expiry_timestamp = expiry_timestamp;
      request_source = request_source;
      request_channel = request_channel;
      base_token_usd_rate = base_token_usd_rate;
      quote_token_usd_rate = quote_token_usd_rate;
      identifier = [];
      message_identifier = [];
      message = [];
      headers = [];
      metadata = metadata;
    })

  -- `none` is an exception: std::runtime_error where the text is not JSON, else one of JsonCpp.
  unfoldable pub from_json : Bytes → Option (Order doubles.Double)
  unfolding read_order
  from_json json_str = lib.parse json_str >>= read_order
