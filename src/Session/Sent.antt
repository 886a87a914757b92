-- ===== src/Session/Sent.antt =====
-- What the publication has taken when send_raw_message and send_combined_message return.
use aeron_cluster_client_cpp.Prelude.{
  ℕ, zero, suc, ◌+◌, ◌≡◌, refl, ap, ◌∙◌, Bytes, List, ◌∷◌, ◌++◌, Bool, true, false, if◌then◌else◌,
  not, ◌||◌, ◌&&◌, ◌==◌, Bool-cases, inl, inr,
}
use aeron_cluster_client_cpp.Prelude.Int.{ℤ, to_u64, is_positive}
use aeron_cluster_client_cpp.Parser.Dispatch.{session_header}
use aeron_cluster_client_cpp.Session.State.{Config, Session}
use aeron_cluster_client_cpp.Session.Offer.{
  handle_offer_failure, is_transient_failure, clear_last_publication_error,
  update_last_publication_error, handle_connection_loss, classify_offer_failure,
  describe_offer_failure, is_connection_loss_failure, is_success,
}
use aeron_cluster_client_cpp.Session.Send.{
  Answer, status, offer_throws, Link, offer_attempt, offer_loop, send_raw_message,
  send_combined_message, is_connected, effective_publish_retry_attempts,
}
use aeron_cluster_client_cpp.Session.History.{Reach, Reach-IsSynced}

-- The message is in `taken` once when the send succeeded, and not at all when it failed.
pub record Delivers (message : Bytes) (s : Session) (sent : Session × Bool) : Type 0 where
  pub on_success : sent.1 ≡ true → sent.0.taken ≡ message ∷ s.taken
  pub on_failure : sent.1 ≡ false → sent.0.taken ≡ s.taken

Delivers-if :
    {m : Bytes} {s : Session} {x y : Session × Bool} (b : Bool)
    → Delivers m s x
    → Delivers m s y
    → Delivers m s (if b then x else y)
Delivers-if true p q = p
Delivers-if false p q = q

nothing_sent : (m : Bytes) (s s' : Session) → s'.taken ≡ s.taken → Delivers m s (s', false)
nothing_sent m s s' e = record { on_success = λ h. cc; on_failure = λ h. e }

Delivers-after :
    {m : Bytes} {s s' : Session} {x : Session × Bool}
    → s'.taken ≡ s.taken
    → Delivers m s' x
    → Delivers m s x
Delivers-after {m} e d = record {
  on_success = λ h. d.on_success h ∙ ap (λ (t : List Bytes). m ∷ t) e;
  on_failure = λ h. d.on_failure h ∙ e;
}

taken-if :
    (s x y : Session) (b : Bool)
    → x.taken ≡ s.taken
    → y.taken ≡ s.taken
    → (if b then x else y).taken ≡ s.taken
taken-if s x y true p q = p
taken-if s x y false p q = q

taken-handle_connection_loss : (s : Session) → (handle_connection_loss s).taken ≡ s.taken
unfolding handle_connection_loss
taken-handle_connection_loss s =
    taken-if s _ s s.connected (taken-if s _ _ s.has_state_callback refl refl) refl

pub taken-handle_offer_failure :
    (result : ℤ) (s : Session) → (handle_offer_failure result s).0.taken ≡ s.taken
unfolding handle_offer_failure update_last_publication_error clear_last_publication_error
taken-handle_offer_failure result s =
    let code = classify_offer_failure result in
    let s1 = update_last_publication_error result (describe_offer_failure result) s in
    let lost : (if is_connection_loss_failure code then handle_connection_loss s1 else s1).taken
        ≡ s.taken =
      taken-if s _ s1 (is_connection_loss_failure code) (taken-handle_connection_loss s1) refl in
    elim (Bool-cases (is_success code)) [ inl e ↦ rw e refl | inr e ↦ rw e lost ]

offer_attempt-Delivers :
    (a : Answer) (last : Bool) (message : Bytes) (next : Session → Session × Bool) (s : Session)
    → ((s' : Session) → Delivers message s' (next s'))
    → Delivers message s (offer_attempt a last message next s)
unfolding offer_attempt clear_last_publication_error
offer_attempt-Delivers offer_throws last message next s rest = nothing_sent message s s refl
offer_attempt-Delivers (status result) last message next s rest =
    let (s', code) = handle_offer_failure result s in
    let same = taken-handle_offer_failure result s in
    Delivers-if (is_positive result) (record { on_success = λ h. refl; on_failure = λ h. cc })
      (Delivers-if (not (is_transient_failure code) || last) (nothing_sent message s s' same)
        (Delivers-after same (rest s')))

pub offer_loop-Delivers :
    (left i : ℕ) (offers : ℕ → Answer) (message : Bytes) (s : Session)
    → Delivers message s (offer_loop left i offers message s)
unfolding offer_loop
offer_loop-Delivers zero i offers message s = nothing_sent message s s refl
offer_loop-Delivers (suc left) i offers message s =
    offer_attempt-Delivers (offers i) (left == 0) message (offer_loop left (i + 1) offers message) s
      (offer_loop-Delivers left (i + 1) offers message)

-- Whatever Aeron answers to `isConnected` and to each offer, send_raw_message leaves the message
-- with the publication exactly once when it returns true, and not at all when it returns false.
pub send_raw_message-Delivers :
    (c : Config) (link : Link) (message : Bytes) (s : Session)
    → Delivers message s (send_raw_message c link message s)
unfolding send_raw_message
send_raw_message-Delivers c link message s =
    Delivers-if (is_connected link.up s)
      (offer_loop-Delivers (effective_publish_retry_attempts c) 0 link.offers message s)
      (nothing_sent message s s refl)

send_combined_message-taken :
    (c : Config) (up : Bool) (link : Link) (m : Bytes) (s : Session)
    → Delivers (s.session_header_buffer ++ m) s (send_combined_message c up link m s)
unfolding send_combined_message
send_combined_message-taken c up link m s =
    let nothing = nothing_sent (s.session_header_buffer ++ m) s s refl in
    let combined = s.session_header_buffer ++ m in
    let sent = offer_loop-Delivers (effective_publish_retry_attempts c) 0 link.offers combined s in
    Delivers-if (is_connected up s) (Delivers-if (is_connected link.up s) sent nothing) nothing

-- A pair that a test guards says true only where the test held.
guard-holds :
    (b : Bool) (x : Session × Bool) (s : Session)
    → (if b then x else (s, false)).1 ≡ true
    → b ≡ true
guard-holds true x s h = refl
guard-holds false x s h = h

and-left : (a b : Bool) → (a && b) ≡ true → a ≡ true
and-left true b h = refl
and-left false b h = h

is_connected-connected : (up : Bool) (s : Session) → is_connected up s ≡ true → s.connected ≡ true
unfolding is_connected
is_connected-connected up s h = and-left s.connected _ (
    and-left (s.connected && s.ingress_publication) _ (
      and-left (s.connected && s.ingress_publication && up) _
        (and-left (s.connected && s.ingress_publication && up && is_positive s.session_id) _ h)))

-- A send that returned true found the session connected.
send_combined_message-connected :
    (c : Config) (up : Bool) (link : Link) (m : Bytes) (s : Session)
    → (send_combined_message c up link m s).1 ≡ true
    → s.connected ≡ true
unfolding send_combined_message
send_combined_message-connected c up link m s h =
    is_connected-connected up s (guard-holds (is_connected up s) _ s h)

-- In a state that the session manager reaches, when send_combined_message returns true, the
-- publication has taken one message more: the 32 byte session message header with the session's
-- leadership term and id and timestamp 0, and then the business message.
pub send_combined_message-session_header :
    (c : Config) (up : Bool) (link : Link) (business_message : Bytes) (s : Session)
    → Reach s
    → (send_combined_message c up link business_message s).1 ≡ true
    → (send_combined_message c up link business_message s).0.taken
      ≡ (session_header (to_u64 s.leadership_term_id) (to_u64 s.session_id) 0 ++ business_message)
        ∷ s.taken
send_combined_message-session_header c up link m s r h =
    let connected = send_combined_message-connected c up link m s h in
    (send_combined_message-taken c up link m s).on_success h
    ∙ ap (λ (b : Bytes). (b ++ m) ∷ s.taken) ((Reach-IsSynced s r).current_header connected)
