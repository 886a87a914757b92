-- ===== src/Signals.antt =====
-- The registry of src/signal_handler.cpp, class SignalHandlerManager: which clients a termination
-- signal disconnects. A client is the number of its control block, which no later client shares; the
-- installing of the handlers, which is calls of the operating system, and the output are left out.
pub mod Due
use aeron_cluster_client_cpp.Prelude.{
  ℕ, ◌+◌, List, [], ◌∷◌, ◌++◌, Bool, true, false, not, ◌&&◌, ◌||◌, ◌==◌, if◌then◌else◌,
}

pub record Registry : Type 0 where
  -- `clients_`, the first registered first.
  pub clients : List ℕ
  pub handlers_installed : Bool
  -- The clients whose last owner is gone: `lock()` of a weak pointer to them is null.
  pub expired : List ℕ

abbrev pub empty_registry : Registry
empty_registry = record { clients = []; handlers_installed = false; expired = [] }

abbrev pub is_in : ℕ → List ℕ → Bool
is_in c [] = false
is_in c (d ∷ l) = d == c || is_in c l

-- `weak_client.lock()` is not null.
abbrev pub locks : List ℕ → ℕ → Bool
locks expired c = not (is_in c expired)

unfoldable pub register_client : ℕ → Registry → Registry
register_client client r = record r {
  clients = r.clients ++ (client ∷ []);
  handlers_installed = true;
}

-- `std::remove_if`
unfoldable pub remove_client : ℕ → List ℕ → List ℕ → List ℕ
remove_client client expired [] = []
remove_client client expired (c ∷ clients) =
    let rest = remove_client client expired clients in
    if not (locks expired c) || c == client then rest else c ∷ rest

unfoldable pub unregister_client : ℕ → Registry → Registry
unfolding remove_client
unregister_client client r = record r { clients = remove_client client r.expired r.clients }

-- The last owner of a client lets go.
abbrev pub expire : ℕ → Registry → Registry
expire client r = record r { expired = client ∷ r.expired }

-- The first loop of disconnect_all_clients.
unfoldable pub valid_clients : List ℕ → List ℕ → List ℕ
valid_clients expired [] = []
valid_clients expired (c ∷ clients) =
    let rest = valid_clients expired clients in if locks expired c then c ∷ rest else rest

pub record Tally : Type 0 where
  -- The clients whose `disconnect` was called, in this order.
  pub called : List ℕ
  pub disconnected_count : ℕ
  pub failed_count : ℕ

-- The second loop. `fails` says whose `disconnect` throws.
unfoldable pub disconnect_each : (ℕ → Bool) → List ℕ → Tally → Tally
disconnect_each fails [] t = t
disconnect_each fails (c ∷ clients) t =
    let called = t.called ++ (c ∷ []) in
    let next =
      if fails c
      then record t { called = called; failed_count = t.failed_count + 1 }
      else record t { called = called; disconnected_count = t.disconnected_count + 1 } in
    disconnect_each fails clients next

unfoldable pub disconnect_all_clients : (ℕ → Bool) → Registry → Tally
unfolding valid_clients disconnect_each
disconnect_all_clients fails r =
    disconnect_each fails (valid_clients r.expired r.clients)
      (record { called = []; disconnected_count = 0; failed_count = 0 })
