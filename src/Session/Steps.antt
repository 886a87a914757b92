-- ===== src/Session/Steps.antt =====
-- What sending does to the prepared buffers: offer_loop and its callers, send_keepalive, disconnect.
use aeron_cluster_client_cpp.Prelude.{
  ℕ, zero, suc, ◌+◌, refl, Bytes, ◌++◌, Bool, true, false, if◌then◌else◌, not, ◌||◌, ◌&&◌, ◌==◌,
  Bool-cases, inl, inr,
}
use aeron_cluster_client_cpp.Prelude.Int.{ℤ, minus_one, is_positive, eq_ℤ}
use aeron_cluster_client_cpp.Session.State.{Config, Session}
use aeron_cluster_client_cpp.Session.Offer.{
  handle_offer_failure, handle_connection_loss, clear_last_publication_error,
  update_last_publication_error, classify_offer_failure, describe_offer_failure,
  is_connection_loss_failure, is_transient_failure, is_success,
}
use aeron_cluster_client_cpp.Session.Send.{
  Answer, status, offer_throws, Link, offer_loop, send_raw_message, send_combined_message,
  keepalive_loop, send_keepalive, message_taken, keepalive_failure, keepalive_taken, offer_attempt,
  keepalive_attempt, is_connected, effective_publish_retry_attempts,
}
use aeron_cluster_client_cpp.Session.Close.{close_loop, should_send_close, disconnect}
use aeron_cluster_client_cpp.Encoder.{encode_session_close_request}
use aeron_cluster_client_cpp.Session.Sync.{
  Quiet, Quiet-refl, Quiet-trans, Quiet-if, call_state_callback-Quiet, disconnected-Quiet,
}

-- A pair of a state and an answer, whose state is quiet.
pub record QuietSent (s : Session) (sent : Session × Bool) : Type 0 where
  pub quiet : Quiet s sent.0

pub QuietSent-if :
    {s : Session} {x y : Session × Bool} (b : Bool)
    → QuietSent s x
    → QuietSent s y
    → QuietSent s (if b then x else y)
QuietSent-if true p q = p
QuietSent-if false p q = q

pub QuietSent-trans :
    {s s' : Session} {x : Session × Bool} → Quiet s s' → QuietSent s' x → QuietSent s x
QuietSent-trans p q = record { quiet = Quiet-trans p q.quiet }

handle_connection_loss-Quiet : (s : Session) → Quiet s (handle_connection_loss s)
unfolding handle_connection_loss
handle_connection_loss-Quiet s =
    Quiet-if s.connected
      (Quiet-trans (disconnected-Quiet s s.session_id) (call_state_callback-Quiet false _))
      (Quiet-refl s)

pub clear_last_publication_error-Quiet : (s : Session) → Quiet s (clear_last_publication_error s)
unfolding clear_last_publication_error
clear_last_publication_error-Quiet s = record {
  keepalive = refl;
  header = refl;
  stays = λ h. (h, refl, refl);
}

pub handle_offer_failure-Quiet :
    (result : ℤ) (s : Session) → Quiet s (handle_offer_failure result s).0
unfolding handle_offer_failure update_last_publication_error
handle_offer_failure-Quiet result s =
    let code = classify_offer_failure result in
    let s1 = update_last_publication_error result (describe_offer_failure result) s in
    let noted : Quiet s s1 = record {
      keepalive = refl;
      header = refl;
      stays = λ h. (h, refl, refl);
    } in
    let lost : Quiet s (if is_connection_loss_failure code then handle_connection_loss s1 else s1) =
      Quiet-if (is_connection_loss_failure code)
        (Quiet-trans noted (handle_connection_loss-Quiet s1)) noted in
    elim (Bool-cases (is_success code)) [
      | inl e ↦ rw e (clear_last_publication_error-Quiet s)
      | inr e ↦ rw e lost
    ]

-- One offer and the rest of the loop that follows it.
message_taken-QuietSent :
    (message : Bytes) (s : Session)
    → QuietSent s (message_taken message (clear_last_publication_error s), true)
unfolding clear_last_publication_error
message_taken-QuietSent message s = record {
  quiet = record { keepalive = refl; header = refl; stays = λ h. (h, refl, refl) };
}

offer_attempt-QuietSent :
    (a : Answer) (last : Bool) (message : Bytes) (next : Session → Session × Bool) (s : Session)
    → ((s' : Session) → QuietSent s' (next s'))
    → QuietSent s (offer_attempt a last message next s)
unfolding offer_attempt
offer_attempt-QuietSent offer_throws last message next s rest = record { quiet = Quiet-refl s }
offer_attempt-QuietSent (status result) last message next s rest =
    let failed = handle_offer_failure-Quiet result s in
    let (s', code) = handle_offer_failure result s in
    QuietSent-if (is_positive result) (message_taken-QuietSent message s) (
      QuietSent-if (not (is_transient_failure code) || last) (record { quiet = failed })
        (QuietSent-trans failed (rest s')))

pub offer_loop-QuietSent :
    (left i : ℕ) (offers : ℕ → Answer) (message : Bytes) (s : Session)
    → QuietSent s (offer_loop left i offers message s)
unfolding offer_loop
offer_loop-QuietSent zero i offers message s = record { quiet = Quiet-refl s }
offer_loop-QuietSent (suc left) i offers message s =
    offer_attempt-QuietSent (offers i) (left == 0) message (offer_loop left (i + 1) offers message)
      s (offer_loop-QuietSent left (i + 1) offers message)

pub send_raw_message-QuietSent :
    (c : Config) (link : Link) (message : Bytes) (s : Session)
    → QuietSent s (send_raw_message c link message s)
unfolding send_raw_message
send_raw_message-QuietSent c link message s =
    QuietSent-if (is_connected link.up s)
      (offer_loop-QuietSent (effective_publish_retry_attempts c) 0 link.offers message s)
      (record { quiet = Quiet-refl s })

pub send_combined_message-QuietSent :
    (c : Config) (up_before : Bool) (link : Link) (message : Bytes) (s : Session)
    → QuietSent s (send_combined_message c up_before link message s)
unfolding send_combined_message
send_combined_message-QuietSent c up_before link message s =
    let kept : QuietSent s (s, false) = record { quiet = Quiet-refl s } in
    QuietSent-if (is_connected up_before s)
      (QuietSent-if (is_connected link.up s)
        (offer_loop-QuietSent (effective_publish_retry_attempts c) 0 link.offers
          (s.session_header_buffer ++ message) s)
        kept)
      kept

keepalive_failure-QuietSent : (s : Session) → QuietSent s (keepalive_failure s)
keepalive_failure-QuietSent s = record {
  quiet = record { keepalive = refl; header = refl; stays = λ h. (h, refl, refl) };
}

keepalive_taken-QuietSent :
    (s : Session) → QuietSent s (keepalive_taken (clear_last_publication_error s), true)
unfolding clear_last_publication_error
keepalive_taken-QuietSent s = record {
  quiet = record { keepalive = refl; header = refl; stays = λ h. (h, refl, refl) };
}

keepalive_attempt-QuietSent :
    (a : Answer) (next : Session → Session × Bool) (s : Session)
    → ((s' : Session) → QuietSent s' (next s'))
    → QuietSent s (keepalive_attempt a next s)
unfolding keepalive_attempt
keepalive_attempt-QuietSent offer_throws next s rest = keepalive_failure-QuietSent s
keepalive_attempt-QuietSent (status result) next s rest =
    let failed = handle_offer_failure-Quiet result s in
    let (s', code) = handle_offer_failure result s in
    QuietSent-if (is_positive result) (keepalive_taken-QuietSent s) (
      QuietSent-if (is_transient_failure code) (QuietSent-trans failed (rest s'))
        (QuietSent-trans failed (keepalive_failure-QuietSent s')))

keepalive_loop-QuietSent :
    (left i : ℕ) (offers : ℕ → Answer) (s : Session) → QuietSent s (keepalive_loop left i offers s)
unfolding keepalive_loop
keepalive_loop-QuietSent zero i offers s = keepalive_failure-QuietSent s
keepalive_loop-QuietSent (suc left) i offers s =
    keepalive_attempt-QuietSent (offers i) (keepalive_loop left (i + 1) offers) s
      (keepalive_loop-QuietSent left (i + 1) offers)

pub send_keepalive-QuietSent : (link : Link) (s : Session) → QuietSent s (send_keepalive link s)
unfolding send_keepalive
send_keepalive-QuietSent link s =
    QuietSent-if
      (not (is_connected link.up s)
        || eq_ℤ s.leadership_term_id minus_one
        || eq_ℤ s.session_id minus_one)
      (record { quiet = Quiet-refl s }) (keepalive_loop-QuietSent 3 0 link.offers s)

close_loop-Quiet :
    (c : Config) (left i : ℕ) (links : ℕ → Link) (request : Bytes) (s : Session)
    → Quiet s (close_loop c left i links request s)
unfolding close_loop
close_loop-Quiet c zero i links request s = Quiet-refl s
close_loop-Quiet c (suc left) i links request s =
    let (s', sent) = send_raw_message c (links i) request s in
    let tried = (send_raw_message-QuietSent c (links i) request s).quiet in
    Quiet-if sent tried (Quiet-trans tried (close_loop-Quiet c left (i + 1) links request s'))

pub disconnect-Quiet :
    (c : Config) (up : Bool) (links : ℕ → Link) (s : Session) → Quiet s (disconnect c up links s)
unfolding disconnect
disconnect-Quiet c up links s =
    let request = encode_session_close_request s.leadership_term_id s.session_id in
    let asked = close_loop-Quiet c 3 0 links request s in
    let before =
      Quiet-if (should_send_close s && s.ingress_publication && (up || s.connected)) asked
        (Quiet-refl s) in
    record { keepalive = before.keepalive; header = before.header; stays = λ h. cc }
