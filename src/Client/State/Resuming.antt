-- ===== src/Client/State/Resuming.antt =====
-- Subscriptions are resumed while the client is not yet connected.
use aeron_cluster_client_cpp.Prelude.{
  ℕ, ◌+◌, Bytes, List, [], ◌∷◌, Bool, true, false, ◌&&◌, ◌≡◌, ◌≢◌, inl, inr, refl, sym, subst, ap,
  ◌∙◌, if◌then◌else◌, Option, none, some,
}
use aeron_cluster_client_cpp.Prelude.Int.{eq_ℤ}
use aeron_cluster_client_cpp.Json.{Scalar}
use aeron_cluster_client_cpp.Session.Events.{
  session_event_error, session_event_redirect, session_event_authentication_rejected,
  session_event_closed,
}
use aeron_cluster_client_cpp.Parser.Outcome.{ParseResult}
use aeron_cluster_client_cpp.Commit.{CommitOffset, get_last_commit}
use aeron_cluster_client_cpp.Client.Link.{
  ClientLink, Reason, session_closed, session_error, authentication_rejected, session_disconnected,
  ConnectionState, disconnected, connecting, connected, set_connection_state,
  notify_connection_loss, start_polling, schedule_auto_reconnect, without_session,
  call_error_callback, on_session_connection_state_changed, on_session_event,
}
use aeron_cluster_client_cpp.Client.Link.Connecting.{
  Callback, state_changed, session_event, call_back_all, Attempt, established,
}
use aeron_cluster_client_cpp.Client.Link.Invariant.{same_state-cases}
use aeron_cluster_client_cpp.Client.Link.Loss.{if-by}
use aeron_cluster_client_cpp.Client.Link.Restart.{set_connection_state-Moved}
use aeron_cluster_client_cpp.Client.State.{Setup, Client, SubscriptionRecord, client_is_connected}
use aeron_cluster_client_cpp.Client.State.Sending.{
  Sending, send_commit_offset, send_subscription_request, resume_one, resume_all,
  resume_subscribed_topics, to_resume,
}

-- What is sent only while connected leaves the client as it is where it is not.
only_connected :
    {A : Type 0}
    → (terminated up : Bool) (raised sent refused : Client × A) (c : Client) → up ≡ false
    → raised.0 ≡ c
    → refused.0 ≡ c
    → (if terminated then raised else if up then sent else refused).0 ≡ c
only_connected true up raised sent refused c down r f = r
only_connected false true raised sent refused c down r f = cc
only_connected false false raised sent refused c down r f = f

not_connected :
    (session_up egress_up : Bool) (c : Client)
    → c.link.connection_state ≢ connected
    → client_is_connected session_up egress_up c ≡ false
unfolding client_is_connected
not_connected session_up egress_up c down =
    elim (same_state-cases c.link.connection_state connected) [
      | inl (e, b) ↦ absurd (down e)
      | inr (ne, b) ↦ rw b refl
    ]

module _ (write_string : List (Bytes × Scalar) → Bytes) (setup : Setup) where
  send_commit_offset_nothing :
      (env : Sending) (offset : CommitOffset) (c : Client)
      → c.link.connection_state ≢ connected
      → (send_commit_offset write_string setup env offset c).0 ≡ c
  unfolding send_commit_offset
  send_commit_offset_nothing env offset c down =
      only_connected _ _ _ _ _ c (not_connected env.session_up env.egress_up c down) refl refl

  send_subscription_request_nothing :
      (env : Sending) (topic i r n : Bytes) (c : Client)
      → c.link.connection_state ≢ connected
      → (send_subscription_request write_string setup env topic i r n c).0 ≡ c
  unfolding send_subscription_request
  send_subscription_request_nothing env topic i r n c down =
      only_connected _ _ _ _ _ c (not_connected env.session_up env.egress_up c down) refl refl

  resume_one_nothing :
      (env : Sending) (r : SubscriptionRecord) (last : Option CommitOffset) (c : Client)
      → c.link.connection_state ≢ connected
      → (resume_one write_string setup env r last c).0 ≡ c
  resume_one_nothing env r none c down =
      send_subscription_request_nothing env r.topic r.message_identifier r.resume_strategy
        r.instance_identifier c down
  resume_one_nothing env r (some offset) c down = send_commit_offset_nothing env offset c down

  -- A step that leaves the client as it is, and the rest.
  resume_next :
      (x : Client × Bool) (rest : Client → Client × Bool) (c : Client)
      → x.0 ≡ c
      → (rest c).0 ≡ c
      → (if x.1 then rest x.0 else (x.0, false)).0 ≡ c
  resume_next (c', true) rest c e h = ap (λ (k : Client). (rest k).0) e ∙ h
  resume_next (c', false) rest c e h = e

  resume_all_nothing :
      (envs : ℕ → Sending) (i : ℕ) (records : List SubscriptionRecord) (c : Client)
      → c.link.connection_state ≢ connected
      → (resume_all write_string setup envs i records c).0 ≡ c
  unfolding resume_all
  resume_all_nothing envs i [] c down = refl
  resume_all_nothing envs i (r ∷ records) c down =
      let last = get_last_commit r.topic r.message_identifier c.commits in
      resume_next (resume_one write_string setup (envs i) r last c)
        (resume_all write_string setup envs (i + 1) records) c
        (resume_one_nothing (envs i) r last c down) (resume_all_nothing envs (i + 1) records c down)

-- The state is not CONNECTED.
abbrev IsDown : ClientLink → Type 0
IsDown l = l.connection_state ≢ connected

set_connection_state-IsDown :
    (state : ConnectionState) (l : ClientLink)
    → state ≢ connected
    → IsDown (set_connection_state state l)
set_connection_state-IsDown state l other e =
    other (sym (set_connection_state-Moved state l).state ∙ e)

schedule_auto_reconnect-IsDown :
    (reason : Reason) (l : ClientLink) → IsDown l → IsDown (schedule_auto_reconnect reason l)
unfolding schedule_auto_reconnect
schedule_auto_reconnect-IsDown reason l down =
    if-by IsDown l.auto_reconnect_enabled _ _
      (λ e. if-by IsDown l.reconnect_in_progress _ _ (λ f. down) (λ f. down)) (λ e. down)

notify_connection_loss-IsDown :
    (reason : Reason) (allow : Bool) (l : ClientLink)
    → IsDown l
    → IsDown (notify_connection_loss reason allow l)
unfolding notify_connection_loss
notify_connection_loss-IsDown reason allow l down =
    let l1 = set_connection_state disconnected (without_session l) in
    let l2 = call_error_callback reason l1 in
    let d : IsDown l2 = set_connection_state-IsDown disconnected (without_session l) (λ e. cc) in
    if-by IsDown l.suppress_disconnect_notifications _ _ (λ e. down)
      (λ e.
        if-by IsDown l.disconnect_notified _ _ (λ f. down)
          (λ f.
            if-by IsDown (allow && l2.auto_reconnect_enabled) _ _
              (λ g. schedule_auto_reconnect-IsDown reason l2 d) (λ g. d)))

on_session_event-IsDown :
    (event : ParseResult) (l : ClientLink) → IsDown l → IsDown (on_session_event event l)
unfolding on_session_event
on_session_event-IsDown event l down =
    let code = event.event_code in
    let message = event.error_message in
    if-by IsDown (eq_ℤ code session_event_redirect) _ _ (λ e. down)
      (λ e.
        if-by IsDown (eq_ℤ code session_event_closed) _ _
          (λ f. notify_connection_loss-IsDown (session_closed message) true l down)
          (λ f.
            if-by IsDown (eq_ℤ code session_event_error) _ _
              (λ g. notify_connection_loss-IsDown (session_error message) true l down)
              (λ g.
                if-by IsDown (eq_ℤ code session_event_authentication_rejected) _ _
                  (λ h.
                    notify_connection_loss-IsDown (authentication_rejected message) false l down)
                  (λ h. down))))

call_back_all-IsDown :
    (calls : List Callback) (l : ClientLink) → IsDown l → IsDown (call_back_all calls l)
unfolding call_back_all on_session_connection_state_changed
call_back_all-IsDown [] l down = down
call_back_all-IsDown (state_changed true ∷ calls) l down = call_back_all-IsDown calls _ down
call_back_all-IsDown (state_changed false ∷ calls) l down = call_back_all-IsDown calls _ (
    notify_connection_loss-IsDown session_disconnected true (record l { stats_connected = false })
      down)
call_back_all-IsDown (session_event event ∷ calls) l down =
    call_back_all-IsDown calls _ (on_session_event-IsDown event l down)

-- The same state, if the process goes on.
abbrev Keeps : ClientLink → Option ClientLink → Type 0
Keeps l none = Unit
Keeps l (some l') = l'.connection_state ≡ l.connection_state

start_polling-Keeps : (l : ClientLink) → Keeps l (start_polling l)
unfolding start_polling
start_polling-Keeps l =
    elim l.polling_active
      as (λ b. Keeps l (
        if b
        then some l
        else if l.polling_thread
        then none
        else some (record l { polling_active = true; polling_thread = true }))) [
          | true ↦ refl
          | false ↦
              elim l.polling_thread
                as (λ b. Keeps l (
                  if b
                  then none
                  else some (record l { polling_active = true; polling_thread = true }))) [
                    | true ↦ tt
                    | false ↦ refl
                  ]
        ]

-- When `connect` resumes the subscriptions, it has not set the state CONNECTED yet: whatever the
-- callbacks did while the session was connected, and whatever the publication would answer, no
-- commit offset and no subscription request is sent, and the client stays as it is.
pub resume_subscribed_topics_nothing :
    (write_string : List (Bytes × Scalar) → Bytes) (setup : Setup) (envs : ℕ → Sending)
    (attempt : Attempt) (before polled : ClientLink) (c : Client)
    → start_polling (set_connection_state connecting before) ≡ some polled
    → c.link ≡ established attempt.result (call_back_all attempt.callbacks polled)
    → (resume_subscribed_topics write_string setup envs c).0 ≡ c
unfolding resume_subscribed_topics established
resume_subscribed_topics_nothing write_string setup envs attempt before polled c starts at =
    let l1 = set_connection_state connecting before in
    let kept : polled.connection_state ≡ l1.connection_state =
      subst (Keeps l1) starts (start_polling-Keeps l1) in
    let down : IsDown polled =
      λ e. set_connection_state-IsDown connecting before (λ f. cc) (sym kept ∙ e) in
    let after = call_back_all-IsDown attempt.callbacks polled down in
    resume_all_nothing write_string setup envs 0 (to_resume write_string setup c) c
      (λ e. after (sym (ap (λ (l : ClientLink). l.connection_state) at) ∙ e))
