-- ===== src/Orders/Portfolio.antt =====
-- The portfolio of src/order_types.cpp: the balances of an account, one for a token, and their total.
pub mod Refinement
use aeron_cluster_client_cpp.Prelude.{
  Bytes, List, [], ◌∷◌, ◌++◌, Bool, true, false, bytes_eq, map, if◌then◌else◌, Option, none, some,
}
use aeron_cluster_client_cpp.Prelude.Int.{ℤ}
use aeron_cluster_client_cpp.Orders.{Doubles, Order, is_buy, calculate_notional_value}

pub record Balance (D : Type 0) : Type 0 where
  pub token : Bytes
  pub available : D
  pub total : D
  pub in_orders : D
  pub usd_value : D
  pub last_updated : ℤ

pub record Portfolio (D : Type 0) : Type 0 where
  pub account_id : ℤ
  pub balances : List (Balance D)
  pub total_usd_value : D
  pub timestamp : ℤ

module _ {D : Type 0} where
  -- The `find_if` of the three functions below.
  unfoldable pub find_balance : Bytes → List (Balance D) → Option (Balance D)
  find_balance token [] = none
  find_balance token (b ∷ balances) =
      if bytes_eq b.token token then some b else find_balance token balances

  -- `*it = balance` where the token is found, else `push_back`.
  unfoldable pub put_balance : Balance D → List (Balance D) → List (Balance D)
  put_balance balance [] = balance ∷ []
  put_balance balance (b ∷ balances) =
      let rest = put_balance balance balances in
      if bytes_eq b.token balance.token then balance ∷ balances else b ∷ rest

  -- `balances.erase(it)`: one element goes.
  unfoldable pub erase_balance : Bytes → List (Balance D) → List (Balance D)
  erase_balance token [] = []
  erase_balance token (b ∷ balances) =
      let rest = erase_balance token balances in
      if bytes_eq b.token token then balances else b ∷ rest

  unfoldable pub get_balance : Bytes → Portfolio D → Option (Balance D)
  unfolding find_balance
  get_balance token p = find_balance token p.balances

  unfoldable pub get_tokens : Portfolio D → List Bytes
  get_tokens p = map (λ (b : Balance D). b.token) p.balances

module _ (doubles : Doubles) where
  -- The loop adds from the left.
  abbrev pub sum_usd : doubles.Double → List (Balance doubles.Double) → doubles.Double
  sum_usd total [] = total
  sum_usd total (b ∷ balances) = sum_usd (doubles.add total b.usd_value) balances

  unfoldable pub recalculate_total_value : Portfolio doubles.Double → Portfolio doubles.Double
  recalculate_total_value p = record p { total_usd_value = sum_usd doubles.nought p.balances }

  -- `now` is what get_current_timestamp_nanos returns.
  unfoldable pub update_balance :
      ℤ → Balance doubles.Double → Portfolio doubles.Double → Portfolio doubles.Double
  unfolding put_balance recalculate_total_value
  update_balance now balance p =
      let q = recalculate_total_value (record p { balances = put_balance balance p.balances }) in
      record q { timestamp = now }

  abbrev pub removed :
      Option (Balance doubles.Double)
      → Portfolio doubles.Double
      → Portfolio doubles.Double
      → Portfolio doubles.Double × Bool
  removed none p q = (p, false)
  removed (some found) p q = (q, true)

  unfoldable pub remove_balance : Bytes → Portfolio doubles.Double → Portfolio doubles.Double × Bool
  unfolding find_balance erase_balance recalculate_total_value
  remove_balance token p =
      let q = recalculate_total_value (record p { balances = erase_balance token p.balances }) in
      removed (find_balance token p.balances) p q

  -- `available >= required_amount`
  abbrev pub is_sufficient : doubles.Double → Balance doubles.Double → Bool
  is_sufficient required b = doubles.le required b.available

  abbrev covers : doubles.Double → Option (Balance doubles.Double) → Bool
  covers required none = false
  covers required (some b) = is_sufficient required b

  unfoldable pub can_place_order : Order doubles.Double → Portfolio doubles.Double → Bool
  unfolding is_buy get_balance calculate_notional_value
  can_place_order o p =
      if is_buy o
      then covers (calculate_notional_value doubles o) (get_balance o.quote_token p)
      else covers o.quantity (get_balance o.base_token p)
