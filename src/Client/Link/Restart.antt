-- ===== src/Client/Link/Restart.antt =====
-- Polling is started again after a loss: what becomes of the polling thread's object.
use aeron_cluster_client_cpp.Prelude.{
  Bool, true, false, ◌&&◌, Option, none, some, ◌≡◌, inl, inr, refl, ◌∙◌, if◌then◌else◌,
}
use aeron_cluster_client_cpp.Client.Link.{
  ClientLink, Reason, ConnectionState, disconnected, connecting, connected, failed, same_state,
  set_connection_state, notify_connection_loss, schedule_auto_reconnect, start_polling,
  call_error_callback, without_session, clear_driver_error_state,
}
use aeron_cluster_client_cpp.Client.Link.Connecting.{
  Attempt, established, call_back_all, finish_connect, client_connect, map_some, client_disconnect,
}
use aeron_cluster_client_cpp.Client.Link.Invariant.{same_state-cases}
use aeron_cluster_client_cpp.Client.Link.Loss.{if-by}

-- What a new state leaves alone, and the state itself.
pub record Moved (new_state : ConnectionState) (l l' : ClientLink) : Type 0 where
  pub state : l'.connection_state ≡ new_state
  pub active : l'.polling_active ≡ l.polling_active
  pub thread : l'.polling_thread ≡ l.polling_thread
  pub notified : l'.disconnect_notified ≡ l.disconnect_notified
  pub progress : l'.reconnect_in_progress ≡ l.reconnect_in_progress

pub set_connection_state-Moved :
    (state : ConnectionState) (l : ClientLink) → Moved state l (set_connection_state state l)
unfolding set_connection_state
set_connection_state-Moved state l = elim (same_state-cases l.connection_state state) [
  | inl (e, b) ↦
      rw b (record { state = e; active = refl; thread = refl; notified = refl; progress = refl })
  | inr (ne, b) ↦
      rw b (record { state = refl; active = refl; thread = refl; notified = refl; progress = refl })
]

-- The polling thread has ended, and its object has not been joined.
record Stranded (l : ClientLink) : Type 0 where
  state : l.connection_state ≡ disconnected
  active : l.polling_active ≡ false
  thread : l.polling_thread ≡ true

call_error_callback-Stranded :
    (reason : Reason) (l : ClientLink) → Stranded l → Stranded (call_error_callback reason l)
call_error_callback-Stranded reason l s = record {
  state = s.state;
  active = s.active;
  thread = s.thread;
}

schedule_auto_reconnect-Stranded :
    (reason : Reason) (l : ClientLink) → Stranded l → Stranded (schedule_auto_reconnect reason l)
unfolding schedule_auto_reconnect
schedule_auto_reconnect-Stranded reason l s =
    if-by Stranded l.auto_reconnect_enabled _ _
      (λ e.
        if-by Stranded l.reconnect_in_progress _ _ (λ e'. s)
          (λ e'. record { state = s.state; active = s.active; thread = s.thread }))
      (λ e. s)

notify_connection_loss-Stranded :
    (reason : Reason) (allow : Bool) (l : ClientLink)
    → l.suppress_disconnect_notifications ≡ false
    → l.disconnect_notified ≡ false
    → l.polling_thread ≡ true
    → Stranded (notify_connection_loss reason allow l)
unfolding notify_connection_loss
notify_connection_loss-Stranded reason allow l loud first thread =
    let l1 = set_connection_state disconnected (without_session l) in
    let l2 = call_error_callback reason l1 in
    let m = set_connection_state-Moved disconnected (without_session l) in
    let s : Stranded l2 = record {
      state = m.state;
      active = m.active;
      thread = m.thread ∙ thread;
    } in
    if-by Stranded l.suppress_disconnect_notifications _ _ (λ e. cc (e, loud))
      (λ e.
        if-by Stranded l.disconnect_notified _ _ (λ e'. cc (e', first))
          (λ e'.
            if-by Stranded (allow && l2.auto_reconnect_enabled) _ _
              (λ f. schedule_auto_reconnect-Stranded reason l2 s) (λ f. s)))

start_polling-Stranded :
    (l : ClientLink) → l.polling_active ≡ false → l.polling_thread ≡ true → start_polling l ≡ none
unfolding start_polling
start_polling-Stranded l a t = rw (a, t) refl

client_connect-Stranded :
    (attempt : Attempt) (l : ClientLink)
    → attempt.initialized ≡ true
    → Stranded l
    → client_connect attempt l ≡ none
unfolding client_connect
client_connect-Stranded attempt l ready s =
    let m = set_connection_state-Moved connecting l in
    let e =
      start_polling-Stranded (set_connection_state connecting l) (m.active ∙ s.active)
        (m.thread ∙ s.thread) in
    let same : same_state l.connection_state connected ≡ false = rw s.state refl in
    rw (same, ready, e) refl

client_disconnect-Stranded : (l : ClientLink) → Stranded l → Stranded (client_disconnect l)
unfolding client_disconnect
client_disconnect-Stranded l s =
    let same : same_state l.connection_state connected ≡ false = rw s.state refl in
    rw same (record { state = s.state; active = s.active; thread = s.thread })

-- A program whose automatic reconnection is off, and which connects again after a notified loss,
-- with or without a `disconnect` before, ends as soon as Aeron has been initialized: the object of
-- the ended polling thread is assigned to while it is joinable.
pub client_connect-notify_connection_loss :
    (attempt : Attempt) (reason : Reason) (allow : Bool) (l : ClientLink)
    → l.suppress_disconnect_notifications ≡ false
    → l.disconnect_notified ≡ false
    → l.polling_thread ≡ true
    → l.auto_reconnect_enabled ≡ false
    → attempt.initialized ≡ true
    → (client_connect attempt (notify_connection_loss reason allow l) ≡ none)
      × (client_connect attempt (client_disconnect (notify_connection_loss reason allow l)) ≡ none)
client_connect-notify_connection_loss attempt reason allow l loud first thread off ready =
    let s = notify_connection_loss-Stranded reason allow l loud first thread in
    (
      client_connect-Stranded attempt (notify_connection_loss reason allow l) ready s,
      client_connect-Stranded attempt (client_disconnect (notify_connection_loss reason allow l))
          ready (client_disconnect-Stranded (notify_connection_loss reason allow l) s),
    )

-- How `connect` ends where the polling thread has been joined.
abbrev pub Ends : Option (Bool × ClientLink) → Type 0
Ends none = ⊥
Ends (some (true, l)) = l.connection_state ≡ connected
Ends (some (false, l)) = Unit

if-Ends :
    (b : Bool) (x y : Option (Bool × ClientLink))
    → (b ≡ true → Ends x)
    → (b ≡ false → Ends y)
    → Ends (if b then x else y)
if-Ends true x y p q = p refl
if-Ends false x y p q = q refl

same_state-true : (a b : ConnectionState) → same_state a b ≡ true → a ≡ b
same_state-true a b e = elim (same_state-cases a b) [ inl (same, f) ↦ same | inr (other, f) ↦ cc ]

finish_connect-Ends : (attempt : Attempt) (l : ClientLink) → Ends (some (finish_connect attempt l))
unfolding finish_connect
finish_connect-Ends attempt l =
    let l1 = call_back_all attempt.callbacks l in
    elim attempt.subscribed
      as (λ b. Ends (
        some (
          if b
          then (if attempt.result.success
              then (
                true,
                set_connection_state connected
                    (clear_driver_error_state (established attempt.result l1)),
              )
              else (false, set_connection_state failed l1))
          else (false, set_connection_state failed l)))) [
            | true ↦
                elim attempt.result.success
                  as (λ b. Ends (
                    some (
                      if b
                      then (
                        true,
                        set_connection_state connected
                            (clear_driver_error_state (established attempt.result l1)),
                      )
                      else (false, set_connection_state failed l1)))) [
                        | true ↦
                            (set_connection_state-Moved connected
                              (clear_driver_error_state (established attempt.result l1))).state
                        | false ↦ tt
                      ]
            | false ↦ tt
          ]

start_polling-Ends :
    (attempt : Attempt) (l : ClientLink)
    → l.polling_thread ≡ false
    → Ends (map_some (finish_connect attempt) (start_polling l))
unfolding start_polling
start_polling-Ends attempt l joined =
    elim l.polling_active
      as (λ b. Ends (
        map_some (finish_connect attempt) (
          if b
          then some l
          else if l.polling_thread
          then none
          else some (record l { polling_active = true; polling_thread = true })))) [
            | true ↦ finish_connect-Ends attempt l
            | false ↦ rw joined (finish_connect-Ends attempt _)
          ]

pub client_connect-Ends :
    (attempt : Attempt) (l : ClientLink)
    → l.polling_thread ≡ false
    → Ends (client_connect attempt l)
unfolding client_connect
client_connect-Ends attempt l joined =
    let l1 = set_connection_state connecting l in
    let m = set_connection_state-Moved connecting l in
    if-Ends (same_state l.connection_state connected) _ _
      (λ e. same_state-true l.connection_state connected e)
      (λ e.
        if-Ends attempt.initialized _ _ (λ e'. start_polling-Ends attempt l1 (m.thread ∙ joined))
          (λ e'. tt))
