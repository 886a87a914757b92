-- ===== src/Client/Link/Endings.antt =====
-- How the reconnecting thread ends.
use aeron_cluster_client_cpp.Prelude.{
  ℕ, zero, suc, ◌+◌, Bool, true, false, Option, none, some, ◌≡◌, ◌⊎◌, inl, inr, refl, if◌then◌else◌,
}
use aeron_cluster_client_cpp.Client.Link.{
  ClientLink, Reason, connected, stop_polling, call_error_callback, auto_reconnect_failed,
}
use aeron_cluster_client_cpp.Client.Link.Connecting.{Attempt, client_connect}
use aeron_cluster_client_cpp.Client.Link.Reconnecting.{
  give_up, after_attempt, reconnect_loop, auto_reconnect, max_reconnect_attempts,
}
use aeron_cluster_client_cpp.Client.Link.Restart.{Ends, client_connect-Ends}

-- The reconnecting is over: the connection is up and nothing is notified, or polling is stopped.
abbrev pub IsOver : ClientLink → Type 0
IsOver l =
    (l.reconnect_in_progress ≡ false)
    × (((l.connection_state ≡ connected) × (l.disconnect_notified ≡ false))
        ⊎ ((l.polling_active ≡ false) × (l.polling_thread ≡ false)))

abbrev Finishes : Option ClientLink → Type 0
Finishes none = ⊥
Finishes (some l) = IsOver l

abbrev IsJoined : ClientLink → Type 0
IsJoined l = (l.polling_active ≡ false) × (l.polling_thread ≡ false)

if-Finishes :
    (b : Bool) (x y : Option ClientLink) → Finishes x → Finishes y → Finishes (if b then x else y)
if-Finishes true x y p q = p
if-Finishes false x y p q = q

give_up-IsOver : (reason : Reason) (l : ClientLink) → IsJoined l → IsOver (give_up reason l)
unfolding give_up
give_up-IsOver reason l joined =
    elim l.auto_reconnect_enabled
      as (λ b. IsOver (
        if b
        then call_error_callback (auto_reconnect_failed reason)
            (record l { reconnect_in_progress = false })
        else record l { reconnect_in_progress = false })) [
          | true ↦ (refl, inr joined)
          | false ↦ (refl, inr joined)
        ]

after_attempt-Finishes :
    (next : ClientLink → Option ClientLink) (x : Option (Bool × ClientLink))
    → ((l : ClientLink) → IsJoined l → Finishes (next l))
    → Ends x
    → Finishes (after_attempt next x)
unfolding stop_polling
after_attempt-Finishes next none ih e = e
after_attempt-Finishes next (some (true, l)) ih e = (refl, inl (e, refl))
after_attempt-Finishes next (some (false, l)) ih e = ih (stop_polling l) (refl, refl)

reconnect_loop-Finishes :
    (attempts : ℕ → Attempt) (left i : ℕ) (reason : Reason) (l : ClientLink)
    → IsJoined l
    → Finishes (reconnect_loop attempts left i reason l)
unfolding reconnect_loop
reconnect_loop-Finishes attempts zero i reason l joined = give_up-IsOver reason l joined
reconnect_loop-Finishes attempts (suc left) i reason l joined =
    let l1 = record l { suppress_disconnect_notifications = false } in
    if-Finishes l.auto_reconnect_enabled _ _
      (after_attempt-Finishes (reconnect_loop attempts left (i + 1) reason)
        (client_connect (attempts i) l1) (reconnect_loop-Finishes attempts left (i + 1) reason)
        (client_connect-Ends (attempts i) l1 joined.1))
      (give_up-IsOver reason l joined)

Finishes-some : (x : Option ClientLink) → Finishes x → (l : ClientLink) × (x ≡ some l) × IsOver l
Finishes-some none e = absurd e
Finishes-some (some l) e = (l, refl, e)

-- The reconnecting thread ends, whatever its attempts meet and whatever state it starts in; the
-- process goes on, no reconnecting is in progress, and either the state is CONNECTED and no loss is
-- notified, or polling is stopped and its thread joined.
pub auto_reconnect-IsOver :
    (attempts : ℕ → Attempt) (reason : Reason) (l : ClientLink)
    → (l' : ClientLink) × (auto_reconnect attempts reason l ≡ some l') × IsOver l'
unfolding auto_reconnect stop_polling
auto_reconnect-IsOver attempts reason l =
    Finishes-some (auto_reconnect attempts reason l) (
      reconnect_loop-Finishes attempts max_reconnect_attempts 1 reason (stop_polling l)
        (refl, refl))
