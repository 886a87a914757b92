-- ===== src/Session/Retry.antt =====
-- When the loop of send_raw_message and send_combined_message succeeds.
use aeron_cluster_client_cpp.Prelude.{
  ℕ, zero, suc, ◌+◌, ◌<◌, ◌≡◌, refl, ap, ◌∙◌, Bytes, Bool, true, false, if◌then◌else◌, subst, ◌==◌,
  arith,
}
use aeron_cluster_client_cpp.Prelude.Int.{ℤ, negsuc, is_positive}
use aeron_cluster_client_cpp.Session.State.{Config, Session}
use aeron_cluster_client_cpp.Session.Offer.{
  classify_offer_failure, handle_offer_failure, is_transient_failure,
}
use aeron_cluster_client_cpp.Session.Send.{
  Answer, status, Link, is_connected, effective_publish_retry_attempts, offer_attempt, offer_loop,
  send_raw_message,
}

-- Back pressured (-2) or admin action (-3).
pub data Transient (a : Answer) : Type 0 where
  is_back_pressured : a ≡ status (negsuc 1) → Transient a
  is_admin_action : a ≡ status (negsuc 2) → Transient a

attempt_goes_on :
    (a : Answer) (message : Bytes) (next : Session → Session × Bool) (s : Session)
    → Transient a
    → (s' : Session) × (offer_attempt a false message next s ≡ next s')
unfolding offer_attempt handle_offer_failure classify_offer_failure is_transient_failure
attempt_goes_on a message next s (is_back_pressured e) = (
  (handle_offer_failure (negsuc 1) s).0,
  ap (λ (x : Answer). offer_attempt x false message next s) e,
)
attempt_goes_on a message next s (is_admin_action e) = (
  (handle_offer_failure (negsuc 2) s).0,
  ap (λ (x : Answer). offer_attempt x false message next s) e,
)

attempt_succeeds :
    (result : ℤ) (last : Bool) (message : Bytes) (next : Session → Session × Bool) (s : Session)
    → is_positive result ≡ true
    → (offer_attempt (status result) last message next s).1 ≡ true
unfolding offer_attempt
attempt_succeeds result last message next s positive = rw positive refl

not_last : (n j : ℕ) → suc j < suc n → (n == 0) ≡ false
not_last n j h = ground arith

-- The same for the loop alone, from any attempt on.
offer_loop-succeeds :
    (left i j : ℕ) (result : ℤ) (offers : ℕ → Answer) (message : Bytes) (s : Session)
    → j < left
    → offers (i + j) ≡ status result
    → is_positive result ≡ true
    → ((k : ℕ) → k < j → Transient (offers (i + k)))
    → (offer_loop left i offers message s).1 ≡ true
unfolding offer_loop
offer_loop-succeeds zero i j result offers message s room taken positive before =
    absurd (omega (arith, room))
offer_loop-succeeds (suc left) i zero result offers message s room taken positive before =
    let next = offer_loop left (i + 1) offers message in
    ap (λ (a : Answer). (offer_attempt a (left == 0) message next s).1)
      (ap offers (omega arith) ∙ taken)
    ∙ attempt_succeeds result (left == 0) message next s positive
offer_loop-succeeds (suc left) i (suc j) result offers message s room taken positive before =
    let next = offer_loop left (i + 1) offers message in
    let first : Transient (offers i) =
      subst (λ (n : ℕ). Transient (offers n)) (omega arith) (before 0 (omega arith)) in
    let (s', e) = attempt_goes_on (offers i) message next s first in
    ap (λ (b : Bool). (offer_attempt (offers i) b message next s).1) (not_last left j room)
    ∙ ap (λ (r : Session × Bool). r.1) e
    ∙ offer_loop-succeeds left (i + 1) j result offers message s' (omega arith)
        (ap offers (omega arith) ∙ taken) positive
        (λ k h.
          subst (λ (n : ℕ). Transient (offers n)) (omega arith) (before (suc k) (omega arith)))

-- When the session is connected, one of the effective retry attempts is answered with a positive
-- position, and every attempt before it with back pressure or an admin action, send_raw_message
-- returns true.
pub send_raw_message-succeeds :
    (c : Config) (link : Link) (j : ℕ) (result : ℤ) (message : Bytes) (s : Session)
    → is_connected link.up s ≡ true
    → j < effective_publish_retry_attempts c
    → link.offers j ≡ status result
    → is_positive result ≡ true
    → ((k : ℕ) → k < j → Transient (link.offers k))
    → (send_raw_message c link message s).1 ≡ true
unfolding send_raw_message
send_raw_message-succeeds c link j result message s connected room taken positive before =
    ap
      (λ (b : Bool).
        (if b
          then offer_loop (effective_publish_retry_attempts c) 0 link.offers message s
          else (s, false)).1)
      connected
    ∙ offer_loop-succeeds (effective_publish_retry_attempts c) 0 j result link.offers message s room
        (ap link.offers (omega arith) ∙ taken) positive
        (λ k h. subst (λ (n : ℕ). Transient (link.offers n)) (omega arith) (before k h))
