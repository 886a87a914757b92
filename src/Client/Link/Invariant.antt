-- ===== src/Client/Link/Invariant.antt =====
-- What holds of the link at all times, whatever is called in whatever order.
pub mod Steps
pub mod Calls
use aeron_cluster_client_cpp.Prelude.{
  List, [], ◌∷◌, Bool, true, false, Option, none, some, ◌≡◌, ◌≢◌, ◌⊎◌, inl, inr, refl, sym, ◌∙◌,
  if◌then◌else◌,
}
use aeron_cluster_client_cpp.Client.Link.{
  ClientLink, Reason, ConnectionState, disconnected, connecting, connected, reconnecting, failed,
  same_state, set_connection_state, make_link,
}

pub same_state-cases :
    (a b : ConnectionState)
    → ((a ≡ b) × (same_state a b ≡ true)) ⊎ ((a ≢ b) × (same_state a b ≡ false))
same_state-cases disconnected disconnected = inl (refl, refl)
same_state-cases disconnected connecting = inr ((λ e. cc), refl)
same_state-cases disconnected connected = inr ((λ e. cc), refl)
same_state-cases disconnected reconnecting = inr ((λ e. cc), refl)
same_state-cases disconnected failed = inr ((λ e. cc), refl)
same_state-cases connecting disconnected = inr ((λ e. cc), refl)
same_state-cases connecting connecting = inl (refl, refl)
same_state-cases connecting connected = inr ((λ e. cc), refl)
same_state-cases connecting reconnecting = inr ((λ e. cc), refl)
same_state-cases connecting failed = inr ((λ e. cc), refl)
same_state-cases connected disconnected = inr ((λ e. cc), refl)
same_state-cases connected connecting = inr ((λ e. cc), refl)
same_state-cases connected connected = inl (refl, refl)
same_state-cases connected reconnecting = inr ((λ e. cc), refl)
same_state-cases connected failed = inr ((λ e. cc), refl)
same_state-cases reconnecting disconnected = inr ((λ e. cc), refl)
same_state-cases reconnecting connecting = inr ((λ e. cc), refl)
same_state-cases reconnecting connected = inr ((λ e. cc), refl)
same_state-cases reconnecting reconnecting = inl (refl, refl)
same_state-cases reconnecting failed = inr ((λ e. cc), refl)
same_state-cases failed disconnected = inr ((λ e. cc), refl)
same_state-cases failed connecting = inr ((λ e. cc), refl)
same_state-cases failed connected = inr ((λ e. cc), refl)
same_state-cases failed reconnecting = inr ((λ e. cc), refl)
same_state-cases failed failed = inl (refl, refl)

-- The calls of the state callback, the latest first, lead from DISCONNECTED to `current`: each one
-- starts where the one before it ended, and none keeps the state.
abbrev pub IsChain : ConnectionState → List (ConnectionState × ConnectionState) → Type 0
IsChain current [] = current ≡ disconnected
IsChain current ((old, new) ∷ calls) = (new ≡ current) × (old ≢ new) × IsChain old calls

pub record IsWell (l : ClientLink) : Type 0 where
  pub callback : l.has_state_callback ≡ true
  pub calls : IsChain l.connection_state l.state_calls
  -- After a notified loss the state is not CONNECTED.
  pub notified : l.disconnect_notified ≡ true → l.connection_state ≢ connected
  -- Where polling is active there is a thread object for it.
  pub polling : l.polling_active ≡ true → l.polling_thread ≡ true

pub make_link-IsWell : (has_error_callback : Bool) → IsWell (make_link true has_error_callback)
unfolding make_link
make_link-IsWell b = record { callback = refl; calls = refl; notified = λ e. cc; polling = λ e. cc }

-- A new state, which is not CONNECTED where a loss is notified. The old state may be.
pub set_connection_state-IsWell :
    (state : ConnectionState) (l : ClientLink)
    → l.has_state_callback ≡ true
    → IsChain l.connection_state l.state_calls
    → (l.polling_active ≡ true → l.polling_thread ≡ true)
    → (l.disconnect_notified ≡ true → state ≢ connected)
    → IsWell (set_connection_state state l)
unfolding set_connection_state
set_connection_state-IsWell state l callback calls polling quiet =
    elim (same_state-cases l.connection_state state) [
      | inl (e, b) ↦ rw b (record {
        callback = callback;
        calls = calls;
        notified = λ loud up. quiet loud (sym e ∙ up);
        polling = polling;
      })
      | inr (ne, b) ↦ rw b (record {
        callback = callback;
        calls = rw callback (refl, ne, calls);
        notified = quiet;
        polling = polling;
      })
    ]
