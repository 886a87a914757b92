-- ===== src/Session/Endpoint.antt =====
-- `resolve_endpoint_for_member`, and the endpoint helpers of SessionUtils. `std::stoi` is the
-- standard library's: `none` is an exception.
use aeron_cluster_client_cpp.Prelude.{
  ℕ, ◌+◌, ◌*◌, Bytes, List, [], ◌∷◌, ◌++◌, Bool, false, Option, none, some, ◌==◌, get_elem?,
  if◌then◌else◌,
}
use aeron_cluster_client_cpp.Prelude.Int.{ℤ, pos, negsuc, eq_ℤ}
use aeron_cluster_client_cpp.Text.{to_string}

-- `find(c)`, then `substr(0, pos)` and `substr(pos + 1)`; `none` is npos.
abbrev cons_fst : ℕ → Option (Bytes × Bytes) → Option (Bytes × Bytes)
cons_fst x none = none
cons_fst x (some (before, after)) = some (x ∷ before, after)

unfoldable pub split_at : ℕ → Bytes → Option (Bytes × Bytes)
split_at c [] = none
split_at c (x ∷ xs) = let rest = split_at c xs in if x == c then some ([], xs) else cons_fst x rest

-- What the caller gets from an index that `member_id >= 0 && member_id < size` allows.
abbrev element_of : List Bytes → ℤ → Option Bytes
element_of entries (pos n) = get_elem? entries n
element_of entries (negsuc n) = none

module _ (stoi : Bytes → Option ℤ) where
  abbrev names_member : ℤ → Option ℤ → Bool
  names_member member_id none = false
  names_member member_id (some id) = eq_ℤ id member_id

  -- The first pass: entries `id=endpoint`.
  unfoldable pub find_mapping : ℤ → List Bytes → Option Bytes
  find_mapping member_id [] = none
  find_mapping member_id (entry ∷ entries) =
      let rest = find_mapping member_id entries in
      elim (split_at b'=' entry) [
        | none ↦ rest
        | some (id_str, endpoint_str) ↦
            if names_member member_id (stoi id_str) then some endpoint_str else rest
      ]

  -- The empty string where nothing is found.
  unfoldable pub resolve_endpoint_for_member : List Bytes → ℤ → Bytes
  unfolding find_mapping
  resolve_endpoint_for_member entries member_id = elim (find_mapping member_id entries) [
    | some endpoint ↦ endpoint
    | none ↦ elim (element_of entries member_id) [
      | none ↦ []
      | some endpoint ↦ elim (split_at b'=' endpoint) [ none ↦ endpoint | some parts ↦ [] ]
    ]
  ]

  unfoldable pub parse_endpoint : Bytes → Bytes × ℤ
  parse_endpoint endpoint = elim (split_at b':' endpoint) [
    | none ↦ ([], pos 0)
    | some (host, port_str) ↦ elim (stoi port_str) [ none ↦ ([], pos 0) | some port ↦ (host, port) ]
  ]

unfoldable pub calculate_leader_endpoint : ℤ → Bytes → Bytes
calculate_leader_endpoint (negsuc n) base_ip = []
calculate_leader_endpoint (pos n) base_ip = base_ip ++ (b':' ∷ to_string (9002 + n * 100))

unfoldable pub extract_base_ip : Bytes → Bytes
extract_base_ip endpoint = elim (split_at b':' endpoint) [
  | some (host, port) ↦ host
  | none ↦ endpoint
]
