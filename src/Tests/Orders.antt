-- ===== src/Tests/Orders.antt =====
-- The theorems on orders, portfolios and publishing at concrete orders, with whole numbers for doubles.
use aeron_cluster_client_cpp.Prelude.{
  ℕ, zero, suc, ◌+◌, ◌*◌, ◌≡◌, ◌↔◌, refl, ap, ◌∙◌, Bytes, List, [], ◌∷◌, ◌++◌, map, true, false,
  bytes_eq, leb, str, if◌then◌else◌, none, some, arith,
}
use aeron_cluster_client_cpp.Prelude.Int.{pos}
use aeron_cluster_client_cpp.Prelude.Dict.{lookup, member}
use aeron_cluster_client_cpp.Orders.{Doubles, Order, validate}
use aeron_cluster_client_cpp.Orders.Validity.{IsValid, validate-IsValid}
use aeron_cluster_client_cpp.Orders.Portfolio.{
  Balance, Portfolio, find_balance, put_balance, erase_balance, get_balance,
  recalculate_total_value, update_balance, remove_balance,
}
use aeron_cluster_client_cpp.Orders.Portfolio.Refinement.{
  Op, update, remove, IsKept, replay, run, run-replay,
}
use aeron_cluster_client_cpp.Orders.Exchange.{OrderJson, to_json, from_json}
use aeron_cluster_client_cpp.Orders.Exchange.Loss.{blank_order, ReadsBack, from_json-to_json}
use aeron_cluster_client_cpp.Orders.Factory.{Draw}
use aeron_cluster_client_cpp.Orders.Factory.Made.{limit_buy, create, create-validate}

abbrev pub whole : Doubles
whole = record { Double = ℕ; nought = 0; unit = 1; le = leb; add = ◌+◌; mul = ◌*◌ }

abbrev pub a_draw : Draw
a_draw = record { now = 17; number = 1234; uuid = str "u1" }

abbrev pub an_order : Order ℕ
an_order = create whole (str "BTC") (str "USD") (limit_buy 2 50) (pos 1) a_draw

validate-IsValid_example : (validate whole an_order ≡ []) ↔ IsValid whole an_order
validate-IsValid_example = validate-IsValid whole an_order

create-validate_example :
    validate whole (create whole (str "BTC") (str "USD") (limit_buy 2 50) (pos 1) a_draw) ≡ []
create-validate_example =
    create-validate whole (str "BTC") (str "USD") (limit_buy 2 50) (pos 1) a_draw (cc) (cc)
      (refl, refl)

abbrev balance_of : Bytes → ℕ → Balance ℕ
balance_of token usd = record {
  token = token;
  available = usd;
  total = usd;
  in_orders = 0;
  usd_value = usd;
  last_updated = pos 0;
}

abbrev no_balances : Portfolio ℕ
no_balances = record { account_id = pos 1; balances = []; total_usd_value = 0; timestamp = pos 0 }

abbrev some_calls : List (Op ℕ)
some_calls =
    update (pos 1) (balance_of (str "BTC") 7)
    ∷ update (pos 2) (balance_of (str "USD") 5)
    ∷ remove (str "BTC")
    ∷ remove (str "EUR")
    ∷ []

the_answers : (run whole some_calls no_balances).1 ≡ true ∷ false ∷ []
unfolding run update_balance remove_balance recalculate_total_value find_balance put_balance
    erase_balance bytes_eq
the_answers = refl

run-replay_example :
    IsKept whole (run whole some_calls no_balances).0
    × ((t : Bytes)
        → get_balance t (run whole some_calls no_balances).0
          ≡ (replay some_calls (λ s. get_balance s no_balances)).0 t)
    × ((run whole some_calls no_balances).1
        ≡ (replay some_calls (λ s. get_balance s no_balances)).1)
run-replay_example =
    run-replay whole some_calls no_balances (λ s. get_balance s no_balances)
      (record { distinct = tt; totalled = refl }) (λ t. refl)

-- Objects as the lists of their keys. A key is written as its bytes plus one, and ended by a zero.
abbrev pub write_keys : List Bytes → Bytes
write_keys [] = []
write_keys (k ∷ ks) = map suc k ++ (0 ∷ write_keys ks)

abbrev put_first : ℕ → List Bytes → List Bytes
put_first c [] = (c ∷ []) ∷ []
put_first c (k ∷ ks) = (c ∷ k) ∷ ks

abbrev read_keys : Bytes → List Bytes
read_keys [] = []
read_keys (zero ∷ s) = [] ∷ read_keys s
read_keys (suc c ∷ s) = put_first c (read_keys s)

read_one : (k s : Bytes) → read_keys (map suc k ++ (0 ∷ s)) ≡ k ∷ read_keys s
read_one [] s = refl
read_one (c ∷ k) s = ap (put_first c) (read_one k s)

read_keys-write_keys : (ks : List Bytes) → read_keys (write_keys ks) ≡ ks
read_keys-write_keys [] = refl
read_keys-write_keys (k ∷ ks) =
    read_one k (write_keys ks) ∙ ap (λ l. k ∷ l) (read_keys-write_keys ks)

abbrev keys_of : List (Bytes × List Bytes) → List Bytes
keys_of [] = []
keys_of ((k, v) ∷ fields) = k ∷ keys_of fields

unfoldable pub key_json : OrderJson ℕ
key_json = record {
  Value = List Bytes;
  object = keys_of;
  text = λ b. [];
  real = λ d. [];
  write_string = write_keys;
  parse = λ b. some (read_keys b);
  find = λ v key. some (if member key v then some [] else none);
  is_null = λ v. false;
  is_object = λ v. true;
  member_names = λ v. v;
  as_string = λ v. none;
  as_double = λ v. none;
  as_int_64 = λ v. none;
  to_string = λ n. [];
  real_to_string = λ d. [];
}

absent_key :
    (fields : List (Bytes × List Bytes)) (key : Bytes)
    → lookup key fields ≡ none
    → member key (keys_of fields) ≡ false
unfolding lookup member
absent_key [] key h = refl
absent_key ((k, v) ∷ fields) key h = ground (arith, absent_key fields key)

key_json-ReadsBack : (fields : List (Bytes × key_json.Value)) → ReadsBack key_json fields
unfolding key_json
key_json-ReadsBack fields = (
  keys_of fields,
  (ap (λ v. some v) (read_keys-write_keys (keys_of fields))),
  (λ key h. rw (absent_key fields key h)),
)

from_json-to_json_example :
    from_json whole key_json (to_json whole key_json an_order) ≡ some (blank_order whole)
from_json-to_json_example = from_json-to_json whole key_json an_order (key_json-ReadsBack _)
