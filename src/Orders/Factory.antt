-- ===== src/Orders/Factory.antt =====
-- The constructor of an order, the factory functions of src/order_types.cpp, and the two sample
-- orders of src/cluster_client.cpp. The clock and the random numbers are arguments.
pub mod Made
use aeron_cluster_client_cpp.Prelude.{ℕ, Bytes, [], ◌++◌, str, none, some}
use aeron_cluster_client_cpp.Prelude.Int.{ℤ, pos}
use aeron_cluster_client_cpp.Text.{to_string}
use aeron_cluster_client_cpp.Orders.{Doubles, Order}

-- What one call reads: the clock, in nanoseconds, with one reading for all of the call, a number from 1000 to 9999, and the text that
-- generate_client_order_uuid or generate_uuid makes of its random numbers.
pub record Draw : Type 0 where
  pub now : ℕ
  pub number : ℕ
  pub uuid : Bytes

unfoldable pub generate_order_id : Bytes → Draw → Bytes
generate_order_id prefix d =
    prefix ++ (str "_" ++ (to_string d.now ++ (str "_" ++ to_string d.number)))

module _ (doubles : Doubles) where
  unfoldable pub make_order :
      Bytes → Bytes → Bytes → doubles.Double → Bytes → Bytes → Draw → Order doubles.Double
  make_order base quote side qty order_type identifier d = record {
    id = [];
    client_order_uuid = d.uuid;
    base_token = base;
    quote_token = quote;
    side = side;
    quantity = qty;
    quantity_token = base;
    limit_price = doubles.nought;
    limit_price_token = quote;
    stop_price = none;
    customer_id = pos 0;
    user_id = pos 0;
    account_id = pos 0;
    status = str "CREATED";
    order_type = order_type;
    time_in_force = str "GTC";
    timestamp = pos d.now;
    updated_at = pos d.now;
    expiry_timestamp = none;
    request_source = str "API";
    request_channel = str "cpp_client";
    base_token_usd_rate = doubles.nought;
    quote_token_usd_rate = doubles.nought;
    identifier = identifier;
    message_identifier = [];
    message = [];
    headers = [];
    metadata = [];
  }

  abbrev pub default_identifier : Bytes
  default_identifier = str "ROHIT_AERON01_TX"

  unfoldable pub create_market_buy :
      Bytes → Bytes → doubles.Double → ℤ → Draw → Order doubles.Double
  unfolding make_order generate_order_id
  create_market_buy base quote quantity account d =
      let o = make_order base quote (str "BUY") quantity (str "MARKET") default_identifier d in
      record o {
        id = generate_order_id (str "market_buy") d;
        account_id = account;
        time_in_force = str "IOC";
      }

  unfoldable pub create_market_sell :
      Bytes → Bytes → doubles.Double → ℤ → Draw → Order doubles.Double
  unfolding make_order generate_order_id
  create_market_sell base quote quantity account d =
      let o = make_order base quote (str "SELL") quantity (str "MARKET") default_identifier d in
      record o {
        id = generate_order_id (str "market_sell") d;
        account_id = account;
        time_in_force = str "IOC";
      }

  unfoldable pub create_limit_buy :
      Bytes → Bytes → doubles.Double → doubles.Double → ℤ → Draw → Order doubles.Double
  unfolding make_order generate_order_id
  create_limit_buy base quote quantity limit_price account d =
      let o = make_order base quote (str "BUY") quantity (str "LIMIT") default_identifier d in
      record o {
        id = generate_order_id (str "limit_buy") d;
        limit_price = limit_price;
        account_id = account;
        time_in_force = str "GTC";
      }

  unfoldable pub create_limit_sell :
      Bytes → Bytes → doubles.Double → doubles.Double → ℤ → Draw → Order doubles.Double
  unfolding make_order generate_order_id
  create_limit_sell base quote quantity limit_price account d =
      let o = make_order base quote (str "SELL") quantity (str "LIMIT") default_identifier d in
      record o {
        id = generate_order_id (str "limit_sell") d;
        limit_price = limit_price;
        account_id = account;
        time_in_force = str "GTC";
      }

  unfoldable pub create_stop_loss :
      Bytes → Bytes → doubles.Double → doubles.Double → ℤ → Draw → Order doubles.Double
  unfolding make_order generate_order_id
  create_stop_loss base quote quantity stop_price account d =
      let o = make_order base quote (str "SELL") quantity (str "STOP") default_identifier d in
      record o {
        id = generate_order_id (str "stop_loss") d;
        stop_price = some stop_price;
        account_id = account;
        time_in_force = str "GTC";
      }

  unfoldable pub create_stop_limit :
      Bytes
      → Bytes
      → doubles.Double
      → doubles.Double
      → doubles.Double
      → ℤ
      → Draw
      → Order doubles.Double
  unfolding make_order generate_order_id
  create_stop_limit base quote quantity stop_price limit_price account d =
      let o = make_order base quote (str "SELL") quantity (str "STOP_LIMIT") default_identifier d in
      record o {
        id = generate_order_id (str "stop_limit") d;
        stop_price = some stop_price;
        limit_price = limit_price;
        account_id = account;
        time_in_force = str "GTC";
      }

  unfoldable pub create_sample_limit_order :
      Bytes → Bytes → Bytes → doubles.Double → doubles.Double → Bytes → Draw → Order doubles.Double
  unfolding make_order generate_order_id
  create_sample_limit_order base quote side quantity limit_price identifier d =
      let o = make_order base quote side quantity (str "LIMIT") identifier d in
      record o {
        id = generate_order_id (str "order") d;
        client_order_uuid = d.uuid;
        limit_price = limit_price;
        time_in_force = str "GTC";
        status = str "CREATED";
        request_source = str "FIX_GATEWAY";
        request_channel = str "cpp_client";
        customer_id = pos 75;
        user_id = pos 67890;
        account_id = pos 11111;
        base_token_usd_rate = limit_price;
        quote_token_usd_rate = doubles.unit;
        quantity_token = base;
        timestamp = pos d.now;
        updated_at = pos d.now;
      }

  unfoldable pub create_sample_market_order :
      Bytes → Bytes → Bytes → doubles.Double → Draw → Order doubles.Double
  unfolding make_order generate_order_id
  create_sample_market_order base quote side quantity d =
      let o = make_order base quote side quantity (str "MARKET") default_identifier d in
      record o {
        id = generate_order_id (str "order") d;
        time_in_force = str "IOC";
        status = str "CREATED";
        request_source = str "API";
        request_channel = str "cpp_client";
        customer_id = pos 12345;
        user_id = pos 67890;
        account_id = pos 11111;
      }
