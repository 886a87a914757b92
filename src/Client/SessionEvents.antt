-- ===== src/Client/SessionEvents.antt =====
-- A session event in the session manager and then in the client, whose callbacks the session manager
-- calls: first the connection state callback, then the event callback.
use aeron_cluster_client_cpp.Prelude.{
  ◌-◌, List, [], ◌∷◌, map, Bool, true, false, ◌||◌, ◌≡◌, ◌⊎◌, inl, inr, refl, ◌∙◌, length, take,
  if◌then◌else◌, arith,
}
use aeron_cluster_client_cpp.Prelude.Int.{ℤ, eq_ℤ}
use aeron_cluster_client_cpp.Parser.Outcome.{ParseResult, is_session_event}
use aeron_cluster_client_cpp.Session.State.{Session, call_state_callback}
use aeron_cluster_client_cpp.Session.Events.{
  handle_session_event, handle_session_error, handle_session_closed, session_event_ok,
  session_event_error, session_event_redirect, session_event_authentication_rejected,
  session_event_closed,
}
use aeron_cluster_client_cpp.Client.Link.{
  ClientLink, session_disconnected, on_session_connection_state_changed,
}
use aeron_cluster_client_cpp.Client.Link.Connecting.{
  state_changed, session_event, call_back, call_back_all,
}
use aeron_cluster_client_cpp.Client.Link.Watch.{on_session_event-IsQuiet, IsWatchful, told_down}

-- The calls of the state callback between two states of the session manager.
abbrev pub new_calls : List Bool → List Bool → List Bool
new_calls before after = take (length after - length before) after

unfoldable pub receive_session_event : ParseResult → Session → ClientLink → Session × ClientLink
unfolding handle_session_event call_back_all
receive_session_event result s l =
    let s1 = handle_session_event result s in
    let told = call_back_all (map state_changed (new_calls s.state_calls s1.state_calls)) l in
    (s1, if is_session_event result then call_back (session_event result) told else l)

-- The events after which the session manager is not connected.
abbrev pub IsLoss : ℤ → Type 0
IsLoss code =
    (code ≡ session_event_error)
    ⊎ ((code ≡ session_event_authentication_rejected) ⊎ (code ≡ session_event_closed))

if-calls :
    (calls : List Bool) (b : Bool) (x y : Session)
    → (b ≡ true → x.state_calls ≡ calls)
    → (b ≡ false → y.state_calls ≡ calls)
    → (if b then x else y).state_calls ≡ calls
if-calls calls true x y p q = p refl
if-calls calls false x y p q = q refl

call_state_callback-calls :
    (up : Bool) (s : Session)
    → s.has_state_callback ≡ true
    → (call_state_callback up s).state_calls ≡ up ∷ s.state_calls
call_state_callback-calls up s has =
    if-calls _ s.has_state_callback _ _ (λ e. refl) (λ e. cc (e, has))

not_ok : (code : ℤ) → IsLoss code → eq_ℤ code session_event_ok ≡ false
not_ok code (inl e) = rw e refl
not_ok code (inr (inl e)) = rw e refl
not_ok code (inr (inr e)) = rw e refl

not_redirect : (code : ℤ) → IsLoss code → eq_ℤ code session_event_redirect ≡ false
not_redirect code (inl e) = rw e refl
not_redirect code (inr (inl e)) = rw e refl
not_redirect code (inr (inr e)) = rw e refl

error_test :
    (code : ℤ)
    → code ≡ session_event_error
    → (eq_ℤ code session_event_error || eq_ℤ code session_event_authentication_rejected) ≡ true
error_test code e = rw e refl

rejected_test :
    (code : ℤ)
    → code ≡ session_event_authentication_rejected
    → (eq_ℤ code session_event_error || eq_ℤ code session_event_authentication_rejected) ≡ true
rejected_test code e = rw e refl

closed_else :
    (code : ℤ)
    → IsLoss code
    → (eq_ℤ code session_event_error || eq_ℤ code session_event_authentication_rejected) ≡ false
    → eq_ℤ code session_event_closed ≡ true
closed_else code (inl e) f = cc (f, error_test code e)
closed_else code (inr (inl e)) f = cc (f, rejected_test code e)
closed_else code (inr (inr e)) f = rw e refl

handle_session_event-loss :
    (result : ParseResult) (s : Session)
    → is_session_event result ≡ true
    → s.has_state_callback ≡ true
    → IsLoss result.event_code
    → (handle_session_event result s).state_calls ≡ false ∷ s.state_calls
unfolding handle_session_event handle_session_error handle_session_closed
handle_session_event-loss result s is has loss =
    let code = result.event_code in
    if-calls _ (is_session_event result) _ _
      (λ e.
        if-calls _ (eq_ℤ code session_event_ok) _ _ (λ f. cc (f, not_ok code loss))
          (λ f.
            if-calls _ (eq_ℤ code session_event_redirect) _ _ (λ g. cc (g, not_redirect code loss))
              (λ g.
                if-calls _
                  (eq_ℤ code session_event_error || eq_ℤ code session_event_authentication_rejected)
                  _ _ (λ h. call_state_callback-calls false _ has)
                  (λ h.
                    if-calls _ (eq_ℤ code session_event_closed) _ _
                      (λ k. call_state_callback-calls false _ has)
                      (λ k. cc (k, closed_else code loss h))))))
      (λ e. cc (e, is))

new_calls-cons : (calls : List Bool) (up : Bool) → new_calls calls (up ∷ calls) ≡ up ∷ []
new_calls-cons calls up =
    let one : length (up ∷ calls) - length calls ≡ 1 = omega arith in rw one refl

-- When the cluster rejects the authentication, reports an error or closes the session, the client that
-- watches its session reports the bare reason that the session is disconnected and reconnects for that
-- reason, after a rejected authentication too: the event callback, which would name the
-- rejection and forbid to reconnect, comes second and has no effect on either.
pub receive_session_event-loss :
    (result : ParseResult) (s : Session) (l : ClientLink)
    → is_session_event result ≡ true
    → IsLoss result.event_code
    → s.has_state_callback ≡ true
    → IsWatchful l
    → let l' = (receive_session_event result s l).1 in
      (l'.error_calls ≡ session_disconnected ∷ l.error_calls)
      × (l'.reconnects ≡ session_disconnected ∷ l.reconnects)
unfolding receive_session_event call_back_all call_back
receive_session_event-loss result s l is loss has w =
    let l1 = on_session_connection_state_changed false l in
    let r = told_down l w in
    let q = on_session_event-IsQuiet result l1 r.done in
    rw (handle_session_event-loss result s is has loss, new_calls-cons s.state_calls false, is)
      (q.errors ∙ r.errors, q.threads ∙ r.threads)
