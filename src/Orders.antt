-- ===== src/Orders.antt =====
-- src/order_types.cpp and include/aeron_cluster/order_types.hpp: the order, its checks and its
-- notional value. A `double` is a value of a type that the arithmetic of the machine gives: no law of
-- it is assumed.
pub mod Validity
pub mod Portfolio
pub mod Exchange
pub mod Factory
use aeron_cluster_client_cpp.Prelude.{
  Bytes, List, [], ◌∷◌, ◌++◌, Bool, true, false, not, ◌&&◌, ◌||◌, bytes_eq, is_empty, str,
  if◌then◌else◌, Option, none, some,
}
use aeron_cluster_client_cpp.Prelude.Int.{ℤ}

-- The operations on `double` that the code uses.
pub record Doubles : Type 1 where
  pub Double : Type 0
  -- `0.0` and `1.0`
  pub nought : Double
  pub unit : Double
  -- `a <= b`, which is also `b >= a`
  pub le : Double → Double → Bool
  pub add : Double → Double → Double
  pub mul : Double → Double → Double

pub record Order (D : Type 0) : Type 0 where
  pub id : Bytes
  pub client_order_uuid : Bytes
  pub base_token : Bytes
  pub quote_token : Bytes
  pub side : Bytes
  pub quantity : D
  pub quantity_token : Bytes
  pub limit_price : D
  pub limit_price_token : Bytes
  pub stop_price : Option D
  pub customer_id : ℤ
  pub user_id : ℤ
  pub account_id : ℤ
  pub status : Bytes
  pub order_type : Bytes
  pub time_in_force : Bytes
  pub timestamp : ℤ
  pub updated_at : ℤ
  pub expiry_timestamp : Option ℤ
  pub request_source : Bytes
  pub request_channel : Bytes
  pub base_token_usd_rate : D
  pub quote_token_usd_rate : D
  pub identifier : Bytes
  pub message_identifier : Bytes
  pub message : List (Bytes × Bytes)
  pub headers : List (Bytes × Bytes)
  pub metadata : List (Bytes × Bytes)

unfoldable pub is_valid_side : Bytes → Bool
is_valid_side side = bytes_eq side (str "BUY") || bytes_eq side (str "SELL")

unfoldable pub is_valid_order_type : Bytes → Bool
is_valid_order_type order_type =
    bytes_eq order_type (str "MARKET")
    || bytes_eq order_type (str "LIMIT")
    || bytes_eq order_type (str "STOP")
    || bytes_eq order_type (str "STOP_LIMIT")

unfoldable pub is_valid_time_in_force : Bytes → Bool
is_valid_time_in_force tif =
    bytes_eq tif (str "GTC")
    || bytes_eq tif (str "IOC")
    || bytes_eq tif (str "FOK")
    || bytes_eq tif (str "DAY")
    || bytes_eq tif (str "GTD")

-- `if (test) errors.push_back(text)`, in front of the errors of the later checks.
abbrev pub error_if : Bool → Bytes → List Bytes → List Bytes
error_if test text errors = if test then text ∷ errors else errors

abbrev pub is_none {ℓ} : {A : Type ℓ} → Option A → Bool
is_none none = true
is_none (some a) = false

module _ (doubles : Doubles) where
  -- `!stop_price.has_value() || stop_price.value() <= 0.0`
  abbrev pub lacks_stop_price : Option doubles.Double → Bool
  lacks_stop_price none = true
  lacks_stop_price (some price) = doubles.le price doubles.nought

  unfoldable pub validate : Order doubles.Double → List Bytes
  validate o =
      let is_stop_limit = bytes_eq o.order_type (str "STOP_LIMIT") in
      let no_stop = lacks_stop_price o.stop_price in
      let no_limit = doubles.le o.limit_price doubles.nought in
      error_if (is_empty o.id) (str "Order ID is required") (
        error_if (is_empty o.base_token) (str "Base token is required") (
          error_if (is_empty o.quote_token) (str "Quote token is required") (
            error_if (not (is_valid_side o.side)) (str "Side must be 'BUY' or 'SELL'") (
              error_if (doubles.le o.quantity doubles.nought) (str "Quantity must be positive") (
                error_if (not (is_valid_order_type o.order_type))
                  (str "Invalid order type: " ++ o.order_type)
                  (error_if (bytes_eq o.order_type (str "LIMIT") && no_limit)
                    (str "Limit price must be positive for LIMIT orders")
                    (error_if (bytes_eq o.order_type (str "STOP") && no_stop)
                      (str "Stop price must be positive for STOP orders")
                      (error_if (is_stop_limit && no_stop)
                        (str "Stop price must be positive for STOP_LIMIT orders")
                        (error_if (is_stop_limit && no_limit)
                          (str "Limit price must be positive for STOP_LIMIT orders")
                          (error_if (not (is_valid_time_in_force o.time_in_force))
                            (str "Invalid time in force: " ++ o.time_in_force)
                            (error_if
                              (bytes_eq o.time_in_force (str "GTD") && is_none o.expiry_timestamp)
                              (str "Expiry timestamp required for GTD orders") [])))))))))))

  -- The branch of the `STOP` orders: the order's value at its stop price, where it has one.
  abbrev pub stop_value : doubles.Double → Option doubles.Double → doubles.Double
  stop_value quantity none = doubles.nought
  stop_value quantity (some price) = doubles.mul quantity price

  unfoldable pub calculate_notional_value : Order doubles.Double → doubles.Double
  calculate_notional_value o =
      let at_stop = stop_value o.quantity o.stop_price in
      if bytes_eq o.order_type (str "MARKET")
      then doubles.nought
      else if bytes_eq o.order_type (str "LIMIT") || bytes_eq o.order_type (str "STOP_LIMIT")
      then doubles.mul o.quantity o.limit_price
      else if bytes_eq o.order_type (str "STOP")
      then at_stop
      else doubles.nought

unfoldable pub is_buy : {D : Type 0} → Order D → Bool
is_buy o = bytes_eq o.side (str "BUY")
