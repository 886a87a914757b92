-- ===== src/Session/Send.antt =====
-- The loops that offer a message to the ingress publication. The publication is Aeron's: what its
-- `isConnected` and `offer` answer is an argument. The waits between attempts change nothing here.
use aeron_cluster_client_cpp.Prelude.{
  ℕ, zero, suc, ◌+◌, Bytes, ◌∷◌, ◌++◌, Bool, true, false, not, ◌&&◌, ◌||◌, ◌==◌, if◌then◌else◌,
}
use aeron_cluster_client_cpp.Prelude.Int.{ℤ, pos, negsuc, is_positive, eq_ℤ, minus_one}
use aeron_cluster_client_cpp.Session.State.{Config, Session}
use aeron_cluster_client_cpp.Session.Offer.{
  clear_last_publication_error, handle_offer_failure, is_transient_failure,
}

-- The answer to one call of `offer`: a status, or an exception.
pub data Answer : Type 0 where
  status : ℤ → Answer
  offer_throws : Answer

-- The answers to one call of `isConnected`; an exception is taken for false.
pub record Link : Type 0 where
  -- `ingress_publication_->isConnected()`
  pub up : Bool
  -- The answer to the offer of each attempt.
  pub offers : ℕ → Answer

unfoldable pub is_connected : Bool → Session → Bool
is_connected up s =
    s.connected
    && s.ingress_publication
    && up
    && is_positive s.session_id
    && is_positive s.leadership_term_id

-- `std::max(1, n)`
abbrev max_one : ℤ → ℕ
max_one (pos zero) = 1
max_one (pos (suc n)) = suc n
max_one (negsuc n) = 1

unfoldable pub effective_publish_retry_attempts : Config → ℕ
effective_publish_retry_attempts c = max_one c.publish_max_retry_attempts

abbrev pub message_taken : Bytes → Session → Session
message_taken message s = record s {
  messages_sent = s.messages_sent + 1;
  taken = message ∷ s.taken;
}

-- One attempt: what the answer to its offer leads to. `next` is the rest of the loop, and `last`
-- says that there is none.
unfoldable pub offer_attempt :
    Answer → Bool → Bytes → (Session → Session × Bool) → Session → Session × Bool
unfolding handle_offer_failure is_transient_failure clear_last_publication_error
offer_attempt offer_throws last message next s = (s, false)
offer_attempt (status result) last message next s =
    let (s', code) = handle_offer_failure result s in
    if is_positive result
    then (message_taken message (clear_last_publication_error s), true)
    else if not (is_transient_failure code) || last
    then (s', false)
    else next s'

-- From attempt `i` on, with `left` attempts left.
unfoldable pub offer_loop : ℕ → ℕ → (ℕ → Answer) → Bytes → Session → Session × Bool
unfolding offer_attempt
offer_loop zero i offers message s = (s, false)
offer_loop (suc left) i offers message s =
    offer_attempt (offers i) (left == 0) message (offer_loop left (i + 1) offers message) s

unfoldable pub send_raw_message : Config → Link → Bytes → Session → Session × Bool
unfolding is_connected offer_loop
send_raw_message c link message s =
    let sent = offer_loop (effective_publish_retry_attempts c) 0 link.offers message s in
    if is_connected link.up s then sent else (s, false)

-- The connection is checked again when the lock has been taken; `up_before` is the first answer.
unfoldable pub send_combined_message : Config → Bool → Link → Bytes → Session → Session × Bool
unfolding is_connected offer_loop
send_combined_message c up_before link business_message s =
    let combined = s.session_header_buffer ++ business_message in
    let sent = offer_loop (effective_publish_retry_attempts c) 0 link.offers combined s in
    if is_connected up_before s
    then (if is_connected link.up s then sent else (s, false))
    else (s, false)

abbrev pub keepalive_failure : Session → Session × Bool
keepalive_failure s = (record s { keepalives_failed = s.keepalives_failed + 1 }, false)

abbrev pub keepalive_taken : Session → Session
keepalive_taken s = record s {
  keepalives_sent = s.keepalives_sent + 1;
  taken = s.keepalive_buffer ∷ s.taken;
}

unfoldable pub keepalive_attempt : Answer → (Session → Session × Bool) → Session → Session × Bool
unfolding handle_offer_failure is_transient_failure clear_last_publication_error
keepalive_attempt offer_throws next s = keepalive_failure s
keepalive_attempt (status result) next s =
    let (s', code) = handle_offer_failure result s in
    if is_positive result
    then (keepalive_taken (clear_last_publication_error s), true)
    else if is_transient_failure code
    then next s'
    else keepalive_failure s'

-- From attempt `i` of the three on, with `left` attempts left.
unfoldable pub keepalive_loop : ℕ → ℕ → (ℕ → Answer) → Session → Session × Bool
unfolding keepalive_attempt
keepalive_loop zero i offers s = keepalive_failure s
keepalive_loop (suc left) i offers s =
    keepalive_attempt (offers i) (keepalive_loop left (i + 1) offers) s

unfoldable pub send_keepalive : Link → Session → Session × Bool
unfolding is_connected keepalive_loop
send_keepalive link s =
    let sent = keepalive_loop 3 0 link.offers s in
    if not (is_connected link.up s)
      || eq_ℤ s.leadership_term_id minus_one
      || eq_ℤ s.session_id minus_one
    then (s, false)
    else sent
