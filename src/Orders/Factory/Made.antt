-- ===== src/Orders/Factory/Made.antt =====
-- The orders of the factory functions are valid.
use aeron_cluster_client_cpp.Prelude.{◌≡◌, refl, ◌≢◌, inl, inr, Bytes, []}
use aeron_cluster_client_cpp.Prelude.Int.{ℤ}
use aeron_cluster_client_cpp.Orders.{Doubles, Order, validate}
use aeron_cluster_client_cpp.Orders.Validity.{
  IsPositive, IsValid, market, limit, stop, stop_limit, good_till_cancelled, immediate_or_cancel,
  validate-IsValid,
}
use aeron_cluster_client_cpp.Orders.Factory.{
  Draw, generate_order_id, make_order, create_market_buy, create_market_sell, create_limit_buy,
  create_limit_sell, create_stop_loss, create_stop_limit,
}

module _ (doubles : Doubles) where
  -- The six functions of the factory, with their arguments.
  pub data Request : Type 0 where
    market_buy market_sell : doubles.Double → Request
    limit_buy limit_sell : doubles.Double → doubles.Double → Request
    stop_loss : doubles.Double → doubles.Double → Request
    stop_limit_sell : doubles.Double → doubles.Double → doubles.Double → Request

  unfoldable pub create : Bytes → Bytes → Request → ℤ → Draw → Order doubles.Double
  unfolding create_market_buy create_market_sell create_limit_buy create_limit_sell create_stop_loss
      create_stop_limit
  create base quote (market_buy q) a d = create_market_buy doubles base quote q a d
  create base quote (market_sell q) a d = create_market_sell doubles base quote q a d
  create base quote (limit_buy q p) a d = create_limit_buy doubles base quote q p a d
  create base quote (limit_sell q p) a d = create_limit_sell doubles base quote q p a d
  create base quote (stop_loss q p) a d = create_stop_loss doubles base quote q p a d
  create base quote (stop_limit_sell q p l) a d = create_stop_limit doubles base quote q p l a d

  -- The quantity and the prices are positive.
  abbrev pub IsPositiveRequest : Request → Type 0
  IsPositiveRequest (market_buy q) = IsPositive doubles q
  IsPositiveRequest (market_sell q) = IsPositive doubles q
  IsPositiveRequest (limit_buy q p) = IsPositive doubles q × IsPositive doubles p
  IsPositiveRequest (limit_sell q p) = IsPositive doubles q × IsPositive doubles p
  IsPositiveRequest (stop_loss q p) = IsPositive doubles q × IsPositive doubles p
  IsPositiveRequest (stop_limit_sell q p l) =
      IsPositive doubles q × (IsPositive doubles p × IsPositive doubles l)

  create-IsValid :
      (base quote : Bytes) (r : Request) (a : ℤ) (d : Draw)
      → base ≢ []
      → quote ≢ []
      → IsPositiveRequest r
      → IsValid doubles (create base quote r a d)
  unfolding create generate_order_id make_order
  create-IsValid base quote (market_buy q) a d b c h = record {
    has_id = cc;
    has_base = b;
    has_quote = c;
    sided = inl refl;
    some_quantity = h;
    priced = market refl;
    timed = immediate_or_cancel refl;
  }
  create-IsValid base quote (market_sell q) a d b c h = record {
    has_id = cc;
    has_base = b;
    has_quote = c;
    sided = inr refl;
    some_quantity = h;
    priced = market refl;
    timed = immediate_or_cancel refl;
  }
  create-IsValid base quote (limit_buy q p) a d b c h = record {
    has_id = cc;
    has_base = b;
    has_quote = c;
    sided = inl refl;
    some_quantity = h.0;
    priced = limit refl h.1;
    timed = good_till_cancelled refl;
  }
  create-IsValid base quote (limit_sell q p) a d b c h = record {
    has_id = cc;
    has_base = b;
    has_quote = c;
    sided = inr refl;
    some_quantity = h.0;
    priced = limit refl h.1;
    timed = good_till_cancelled refl;
  }
  create-IsValid base quote (stop_loss q p) a d b c h = record {
    has_id = cc;
    has_base = b;
    has_quote = c;
    sided = inr refl;
    some_quantity = h.0;
    priced = stop p refl refl h.1;
    timed = good_till_cancelled refl;
  }
  create-IsValid base quote (stop_limit_sell q p l) a d b c h = record {
    has_id = cc;
    has_base = b;
    has_quote = c;
    sided = inr refl;
    some_quantity = h.0;
    priced = stop_limit p refl refl h.1.0 h.1.1;
    timed = good_till_cancelled refl;
  }

  -- Each of the six functions of the factory makes an order without validation errors, if the two
  -- tokens are not empty and the quantity and the prices that it is given are positive.
  pub create-validate :
      (base quote : Bytes) (r : Request) (a : ℤ) (d : Draw)
      → base ≢ []
      → quote ≢ []
      → IsPositiveRequest r
      → validate doubles (create base quote r a d) ≡ []
  create-validate base quote r a d b c h =
      (validate-IsValid doubles (create base quote r a d)).1 (create-IsValid base quote r a d b c h)
