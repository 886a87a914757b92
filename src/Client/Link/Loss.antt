-- ===== src/Client/Link/Loss.antt =====
-- A loss is notified once.
use aeron_cluster_client_cpp.Prelude.{
  ℕ, ◌+◌, ◌≤◌, le_refl, List, [], ◌∷◌, Bool, true, false, ◌&&◌, ◌≡◌, refl, length, arith,
  if◌then◌else◌,
}
use aeron_cluster_client_cpp.Prelude.Int.{eq_ℤ}
use aeron_cluster_client_cpp.Session.Events.{
  session_event_error, session_event_redirect, session_event_authentication_rejected,
  session_event_closed,
}
use aeron_cluster_client_cpp.Parser.Outcome.{ParseResult}
use aeron_cluster_client_cpp.Client.Link.{
  ClientLink, Reason, session_closed, session_error, authentication_rejected, session_disconnected,
  ConnectionState, disconnected, same_state, set_connection_state, notify_connection_loss,
  schedule_auto_reconnect, without_session, call_error_callback,
  on_session_connection_state_changed, on_session_event,
}
use aeron_cluster_client_cpp.Client.Link.Connecting.{
  Callback, state_changed, session_event, call_back_all,
}

-- Either branch of a test, by the test's value.
pub if-by :
    (P : ClientLink → Type 0) (b : Bool) (x y : ClientLink)
    → (b ≡ true → P x)
    → (b ≡ false → P y)
    → P (if b then x else y)
if-by P true x y p q = p refl
if-by P false x y p q = q refl

-- The calls of the error callback that are made or may still be made before the connection is up
-- again, and so for the reconnecting threads.
abbrev owed : ClientLink → ℕ
owed l = if l.disconnect_notified then 0 else 1

-- From `l` to `l'` no call becomes possible that was not.
record Spends (l l' : ClientLink) : Type 0 where
  errors : length l'.error_calls + owed l' ≤ length l.error_calls + owed l
  threads : length l'.reconnects + owed l' ≤ length l.reconnects + owed l

Spends-same :
    (l l' : ClientLink)
    → l'.error_calls ≡ l.error_calls
    → l'.reconnects ≡ l.reconnects
    → l'.disconnect_notified ≡ l.disconnect_notified
    → Spends l l'
Spends-same l l' e r d = record { errors = rw (e, d) (le_refl _); threads = rw (r, d) (le_refl _) }

-- A state change leaves the other members.
pub record Keeps (l l' : ClientLink) : Type 0 where
  pub errors : l'.error_calls ≡ l.error_calls
  pub threads : l'.reconnects ≡ l.reconnects
  pub notified : l'.disconnect_notified ≡ l.disconnect_notified

pub set_connection_state-Keeps :
    (state : ConnectionState) (l : ClientLink) → Keeps l (set_connection_state state l)
unfolding set_connection_state
set_connection_state-Keeps state l =
    if-by (Keeps l) (same_state l.connection_state state) _ _
      (λ e. record { errors = refl; threads = refl; notified = refl })
      (λ e. record { errors = refl; threads = refl; notified = refl })

-- The link after a notified loss, before reconnecting is scheduled.
record Told (l l' : ClientLink) : Type 0 where
  errors : length l'.error_calls ≤ length l.error_calls + 1
  threads : l'.reconnects ≡ l.reconnects
  notified : l'.disconnect_notified ≡ true

told :
    (reason : Reason) (l : ClientLink)
    → Told l (call_error_callback reason (set_connection_state disconnected (without_session l)))
told reason l =
    let k = set_connection_state-Keeps disconnected (without_session l) in
    record { errors = ground (arith, k.errors); threads = k.threads; notified = k.notified }

Told-Spends : (l l' : ClientLink) → l.disconnect_notified ≡ false → Told l l' → Spends l l'
Told-Spends l l' quiet t = record {
  errors = ground (arith, t.errors, t.notified, quiet);
  threads = ground (arith, t.threads, t.notified, quiet);
}

scheduled :
    (reason : Reason) (l l' : ClientLink)
    → l.disconnect_notified ≡ false
    → Told l l'
    → Spends l (schedule_auto_reconnect reason l')
unfolding schedule_auto_reconnect
scheduled reason l l' quiet t =
    if-by (Spends l) l'.auto_reconnect_enabled _ _
      (λ e.
        if-by (Spends l) l'.reconnect_in_progress _ _ (λ e'. Told-Spends l l' quiet t)
          (λ e'. record {
            errors = ground (arith, t.errors, t.notified, quiet);
            threads = ground (arith, t.threads, t.notified, quiet);
          }))
      (λ e. Told-Spends l l' quiet t)

notify_connection_loss-Spends :
    (reason : Reason) (allow : Bool) (l : ClientLink)
    → Spends l (notify_connection_loss reason allow l)
unfolding notify_connection_loss
notify_connection_loss-Spends reason allow l =
    let l1 = set_connection_state disconnected (without_session l) in
    let l2 = call_error_callback reason l1 in
    if-by (Spends l) l.suppress_disconnect_notifications _ _ (λ e. Spends-same l l refl refl refl)
      (λ e.
        if-by (Spends l) l.disconnect_notified _ _ (λ e'. Spends-same l l refl refl refl)
          (λ quiet.
            if-by (Spends l) (allow && l2.auto_reconnect_enabled) _ _
              (λ e''. scheduled reason l l2 quiet (told reason l))
              (λ e''. Told-Spends l l2 quiet (told reason l))))

on_session_event-Spends :
    (event : ParseResult) (l : ClientLink) → Spends l (on_session_event event l)
unfolding on_session_event
on_session_event-Spends event l =
    let code = event.event_code in
    let message = event.error_message in
    if-by (Spends l) (eq_ℤ code session_event_redirect) _ _ (λ e. Spends-same l _ refl refl refl)
      (λ e.
        if-by (Spends l) (eq_ℤ code session_event_closed) _ _
          (λ e'. notify_connection_loss-Spends (session_closed message) true l)
          (λ e'.
            if-by (Spends l) (eq_ℤ code session_event_error) _ _
              (λ e''. notify_connection_loss-Spends (session_error message) true l)
              (λ e''.
                if-by (Spends l) (eq_ℤ code session_event_authentication_rejected) _ _
                  (λ f. notify_connection_loss-Spends (authentication_rejected message) false l)
                  (λ f. Spends-same l l refl refl refl))))

-- The calls without one that reports that the connection is up.
abbrev pub HasNoUp : List Callback → Type 0
HasNoUp [] = Unit
HasNoUp (state_changed true ∷ calls) = ⊥
HasNoUp (state_changed false ∷ calls) = HasNoUp calls
HasNoUp (session_event event ∷ calls) = HasNoUp calls

both : (l l' l'' : ClientLink) → Spends l l' → Spends l' l'' → Spends l l''
both l l' l'' s s' = record {
  errors = omega (arith, s.errors, s'.errors);
  threads = omega (arith, s.threads, s'.threads);
}

call_back_all-Spends :
    (calls : List Callback) (l : ClientLink) → HasNoUp calls → Spends l (call_back_all calls l)
unfolding call_back_all on_session_connection_state_changed
call_back_all-Spends [] l h = Spends-same l l refl refl refl
call_back_all-Spends (state_changed true ∷ calls) l h = absurd h
call_back_all-Spends (state_changed false ∷ calls) l h =
    let down = record l { stats_connected = false } in
    let s = notify_connection_loss-Spends session_disconnected true down in
    both l (notify_connection_loss session_disconnected true down) _
      (record { errors = s.errors; threads = s.threads }) (call_back_all-Spends calls _ h)
call_back_all-Spends (session_event event ∷ calls) l h =
    both l (on_session_event event l) _ (on_session_event-Spends event l)
      (call_back_all-Spends calls _ h)

-- However many callbacks of the session manager report losses, errors or other events, until one
-- reports that the connection is up: together they make at most one call of the error callback and
-- start at most one reconnecting thread, and none at all if a loss has been notified before.
pub call_back_all_once :
    (calls : List Callback) (l : ClientLink)
    → HasNoUp calls
    → let l' = call_back_all calls l in
      let most : ℕ = if l.disconnect_notified then 0 else 1 in
      (length l'.error_calls ≤ length l.error_calls + most)
      × (length l'.reconnects ≤ length l.reconnects + most)
call_back_all_once calls l h =
    let s = call_back_all-Spends calls l h in (omega (arith, s.errors), omega (arith, s.threads))
