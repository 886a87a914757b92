-- ===== src/Session/Stuck.antt =====
-- A `connect` that has nobody left to try.
use aeron_cluster_client_cpp.Prelude.{
  ℕ, zero, suc, ◌+◌, ◌≡◌, refl, ap, ◌∙◌, Bytes, List, [], Bool, true, false, if◌then◌else◌, not,
  ◌&&◌, Option, length, arith,
}
use aeron_cluster_client_cpp.Prelude.Int.{ℤ, pos, ltb_ℤ}
use aeron_cluster_client_cpp.Parser.Outcome.{ParseResult}
use aeron_cluster_client_cpp.Session.State.{Config, Session}
use aeron_cluster_client_cpp.Session.Events.{handle_session_events}
use aeron_cluster_client_cpp.Session.Connect.{
  Try, failed_result, mem, Progress, Ended, goes_on, can_follow, redirected_attempt, member_loop,
  connect_attempt, end_attempt, connect_loop,
}

route :
    (a b seen negative : Bool) (x y z : Ended)
    → seen ≡ true
    → negative ≡ false
    → (if a && b && not seen then x else if not negative then y else z) ≡ y
route false false true false x y z s n = refl
route false true true false x y z s n = refl
route true false true false x y z s n = refl
route true true true false x y z s n = refl
route a b false negative x y z s n = cc
route a b true true x y z s n = cc

not_negative : (n : ℕ) → ltb_ℤ (pos n) (pos 0) ≡ false
not_negative n = ground arith

no_events :
    (events : List ParseResult) (p : Progress)
    → events ≡ []
    → handle_session_events events p.session ≡ p.session
unfolding handle_session_events
no_events events p e = rw e refl

with_session : (p : Progress) (s : Session) → s ≡ p.session → record p { session = s } ≡ p
with_session p s e = ap (λ (t : Session). record p { session = t }) e

module _ (stoi : Bytes → Option ℤ) (c : Config) (env : ℕ → Try) where
  connect_attempt-stuck :
      (target : ℕ) (p : Progress)
      → p.session.redirected_to_member_id ≡ pos target
      → mem (pos target) p.tried_members ≡ true
      → connect_attempt stoi c env p ≡ goes_on p
  unfolding connect_attempt can_follow
  connect_attempt-stuck target p at tried =
      let t = p.session.redirected_to_member_id in
      route (not (ltb_ℤ t (pos 0))) (ltb_ℤ t (pos (length c.cluster_endpoints)))
        (mem t p.tried_members) (ltb_ℤ t (pos 0)) (redirected_attempt stoi c env t p) (goes_on p)
        (member_loop stoi c env (length c.cluster_endpoints) 0 p)
        (ap (λ (m : ℤ). mem m p.tried_members) at ∙ tried)
        (ap (λ (m : ℤ). ltb_ℤ m (pos 0)) at ∙ not_negative target)

  connect_loop-step :
      (left n : ℕ) (sleeps : ℕ → List ParseResult) (p : Progress)
      → connect_loop stoi c env (suc left) n sleeps p
        ≡ end_attempt
            (sleeps n)
            (connect_loop stoi c env left (n + 1) sleeps)
            (connect_attempt stoi c env p)
  unfolding connect_loop
  connect_loop-step left n sleeps p = refl

  -- While a redirect is pending to a member that is already in `tried_members`, and no session
  -- event arrives in the sleeps, the remaining attempts of `connect` try no member: whatever their
  -- number, the loop ends with the failed result and everything else unchanged.
  pub connect_loop-stuck :
      (left n target : ℕ) (sleeps : ℕ → List ParseResult) (p : Progress)
      → p.session.redirected_to_member_id ≡ pos target
      → mem (pos target) p.tried_members ≡ true
      → ((k : ℕ) → sleeps k ≡ [])
      → connect_loop stoi c env left n sleeps p ≡ (failed_result, p)
  unfolding connect_loop
  connect_loop-stuck zero n target sleeps p at tried quiet = refl
  connect_loop-stuck (suc left) n target sleeps p at tried quiet =
      connect_loop-step left n sleeps p
      ∙ ap (end_attempt (sleeps n) (connect_loop stoi c env left (n + 1) sleeps))
          (connect_attempt-stuck target p at tried)
      ∙ ap (connect_loop stoi c env left (n + 1) sleeps) (
          with_session p (handle_session_events (sleeps n) p.session)
            (no_events (sleeps n) p (quiet n)))
      ∙ connect_loop-stuck left (n + 1) target sleeps p at tried quiet
