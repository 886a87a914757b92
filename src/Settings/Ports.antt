-- ===== src/Settings/Ports.antt =====
-- find_available_port of src/config.cpp. The random draws and the answers of `socket` and `bind` are
-- a list.
pub mod Found
use aeron_cluster_client_cpp.Prelude.{
  ℕ, ◌+◌, ◌-◌, List, [], ◌∷◌, Bool, true, false, ◌&&◌, ◌||◌, ◌==◌, ltb, length, if◌then◌else◌,
}

pub record PortDraw : Type 0 where
  pub port : ℕ
  pub has_socket : Bool
  pub bound : Bool

-- `drawing`: the list of draws has ended, and the loop goes on.
pub data Search : Type 0 where
  port_found : ℕ → Search
  none_available drawing : Search

-- `tried.count(port)`
unfoldable pub is_tried : ℕ → List ℕ → Bool
is_tried port [] = false
is_tried port (p ∷ tried) = p == port || is_tried port tried

abbrev pub serves : PortDraw → Bool
serves d = d.has_socket && d.bound

unfoldable pub search_port : ℕ → List PortDraw → List ℕ → Search
unfolding is_tried
search_port count [] tried = if ltb (length tried) count then drawing else none_available
search_port count (d ∷ draws) tried =
    let again = search_port count draws tried in
    let on = search_port count draws (d.port ∷ tried) in
    if ltb (length tried) count
    then (if is_tried d.port tried then again else if serves d then port_found d.port else on)
    else none_available

unfoldable pub find_available_port : ℕ → ℕ → List PortDraw → Search
unfolding search_port
find_available_port min_port max_port draws = search_port (max_port - min_port + 1) draws []
