-- ===== src/Client/Link/Watch.antt =====
-- What a link reports of a loss, and that it reports nothing more then.
use aeron_cluster_client_cpp.Prelude.{◌∷◌, Bool, true, false, ◌&&◌, ◌≡◌, refl, ap}
use aeron_cluster_client_cpp.Prelude.Int.{eq_ℤ}
use aeron_cluster_client_cpp.Parser.Outcome.{ParseResult}
use aeron_cluster_client_cpp.Session.Events.{
  session_event_error, session_event_redirect, session_event_authentication_rejected,
  session_event_closed,
}
use aeron_cluster_client_cpp.Client.Link.{
  ClientLink, Reason, session_disconnected, session_closed, session_error, authentication_rejected,
  disconnected, set_connection_state, notify_connection_loss, schedule_auto_reconnect,
  without_session, call_error_callback, on_session_event, on_session_connection_state_changed,
}
use aeron_cluster_client_cpp.Client.Link.Loss.{if-by}

-- Nothing more is reported once a loss is.
pub record IsQuiet (l l' : ClientLink) : Type 0 where
  pub errors : l'.error_calls ≡ l.error_calls
  pub threads : l'.reconnects ≡ l.reconnects

notify_connection_loss-IsQuiet :
    (reason : Reason) (allow : Bool) (l : ClientLink)
    → l.disconnect_notified ≡ true
    → IsQuiet l (notify_connection_loss reason allow l)
unfolding notify_connection_loss
notify_connection_loss-IsQuiet reason allow l done =
    if-by (IsQuiet l) l.suppress_disconnect_notifications _ _
      (λ e. record { errors = refl; threads = refl })
      (λ e.
        if-by (IsQuiet l) l.disconnect_notified _ _ (λ f. record { errors = refl; threads = refl })
          (λ f. cc (f, done)))

pub on_session_event-IsQuiet :
    (event : ParseResult) (l : ClientLink)
    → l.disconnect_notified ≡ true
    → IsQuiet l (on_session_event event l)
unfolding on_session_event
on_session_event-IsQuiet event l done =
    let code = event.event_code in
    let message = event.error_message in
    if-by (IsQuiet l) (eq_ℤ code session_event_redirect) _ _
      (λ e. record { errors = refl; threads = refl })
      (λ e.
        if-by (IsQuiet l) (eq_ℤ code session_event_closed) _ _
          (λ f. notify_connection_loss-IsQuiet (session_closed message) true l done)
          (λ f.
            if-by (IsQuiet l) (eq_ℤ code session_event_error) _ _
              (λ g. notify_connection_loss-IsQuiet (session_error message) true l done)
              (λ g.
                if-by (IsQuiet l) (eq_ℤ code session_event_authentication_rejected) _ _
                  (λ h.
                    notify_connection_loss-IsQuiet (authentication_rejected message) false l done)
                  (λ h. record { errors = refl; threads = refl }))))

-- A link that reports a loss when there is one, and then reconnects.
pub record IsWatchful (l : ClientLink) : Type 0 where
  pub heard : l.suppress_disconnect_notifications ≡ false
  pub new : l.disconnect_notified ≡ false
  pub error_callback : l.has_error_callback ≡ true
  pub enabled : l.auto_reconnect_enabled ≡ true
  pub idle : l.reconnect_in_progress ≡ false

-- The link after a loss that it reports for `reason`.
pub record Reports (reason : Reason) (l l' : ClientLink) : Type 0 where
  pub errors : l'.error_calls ≡ reason ∷ l.error_calls
  pub threads : l'.reconnects ≡ reason ∷ l.reconnects
  pub done : l'.disconnect_notified ≡ true

-- What scheduling needs of the link.
record IsReady (reason : Reason) (l l' : ClientLink) : Type 0 where
  errors : l'.error_calls ≡ reason ∷ l.error_calls
  threads : l'.reconnects ≡ l.reconnects
  done : l'.disconnect_notified ≡ true
  enabled : l'.auto_reconnect_enabled ≡ true
  idle : l'.reconnect_in_progress ≡ false

told-IsReady :
    (reason : Reason) (l : ClientLink)
    → IsWatchful l
    → IsReady reason l
        (call_error_callback reason (set_connection_state disconnected (without_session l)))
unfolding set_connection_state
told-IsReady reason l w =
    let l0 = without_session l in
    if-by (λ l1. IsReady reason l (call_error_callback reason l1)) _ _ _
      (λ e. record {
        errors = rw w.error_callback refl;
        threads = refl;
        done = refl;
        enabled = w.enabled;
        idle = w.idle;
      })
      (λ e. record {
        errors = rw w.error_callback refl;
        threads = refl;
        done = refl;
        enabled = w.enabled;
        idle = w.idle;
      })

schedule-Reports :
    (reason : Reason) (l l' : ClientLink)
    → IsReady reason l l'
    → Reports reason l (schedule_auto_reconnect reason l')
unfolding schedule_auto_reconnect
schedule-Reports reason l l' r =
    if-by (Reports reason l) l'.auto_reconnect_enabled _ _
      (λ e.
        if-by (Reports reason l) l'.reconnect_in_progress _ _ (λ f. cc (f, r.idle))
          (λ f. record { errors = r.errors; threads = ap (◌∷◌ reason) r.threads; done = r.done }))
      (λ e. cc (e, r.enabled))

notify_connection_loss-Reports :
    (reason : Reason) (l : ClientLink)
    → IsWatchful l
    → Reports reason l (notify_connection_loss reason true l)
unfolding notify_connection_loss
notify_connection_loss-Reports reason l w =
    let l1 = set_connection_state disconnected (without_session l) in
    let l2 = call_error_callback reason l1 in
    let r = told-IsReady reason l w in
    if-by (Reports reason l) l.suppress_disconnect_notifications _ _ (λ e. cc (e, w.heard))
      (λ e.
        if-by (Reports reason l) l.disconnect_notified _ _ (λ f. cc (f, w.new))
          (λ f.
            if-by (Reports reason l) (true && l2.auto_reconnect_enabled) _ _
              (λ g. schedule-Reports reason l l2 r) (λ g. cc (g, r.enabled))))

pub told_down :
    (l : ClientLink)
    → IsWatchful l
    → Reports session_disconnected l (on_session_connection_state_changed false l)
unfolding on_session_connection_state_changed
told_down l w =
    let r =
      notify_connection_loss-Reports session_disconnected (record l { stats_connected = false })
        (record {
          heard = w.heard;
          new = w.new;
          error_callback = w.error_callback;
          enabled = w.enabled;
          idle = w.idle;
        }) in
    record { errors = r.errors; threads = r.threads; done = r.done }
