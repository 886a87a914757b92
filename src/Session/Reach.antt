-- ===== src/Session/Reach.antt =====
-- `connect`, and every state that the session manager reaches.
use aeron_cluster_client_cpp.Prelude.{
  ℕ, zero, suc, ◌+◌, ◌≡◌, refl, Bytes, List, [], ◌∷◌, Bool, true, false, if◌then◌else◌, not, ◌||◌,
  Option, length, is_empty,
}
use aeron_cluster_client_cpp.Prelude.Int.{ℤ, pos, minus_one, ltb_ℤ, is_positive}
use aeron_cluster_client_cpp.Parser.Outcome.{ParseResult}
use aeron_cluster_client_cpp.Session.State.{Config, Session}
use aeron_cluster_client_cpp.Session.Offer.{clear_last_publication_error}
use aeron_cluster_client_cpp.Session.Send.{Answer, status, offer_throws}
use aeron_cluster_client_cpp.Session.Events.{handle_session_events}
use aeron_cluster_client_cpp.Session.Endpoint.{resolve_endpoint_for_member}
use aeron_cluster_client_cpp.Session.Connect.{
  Try, send_session_connect_request, request_loop, is_elsewhere, await_session, request_and_wait,
  try_connect_to_member, connected_result, mem, insert, Progress, Ended, returned, goes_on,
  try_member, redirected_attempt, member_loop, can_follow, connect_attempt,
}
use aeron_cluster_client_cpp.Session.Sync.{
  IsSynced, Quiet-IsSynced, Quiet-refl, handle_session_events-IsSynced,
}
use aeron_cluster_client_cpp.Session.Steps.{
  QuietSent, QuietSent-if, QuietSent-trans, handle_offer_failure-Quiet,
}

send_session_connect_request-QuietSent :
    (c : Config) (a : Answer) (s : Session) → QuietSent s (send_session_connect_request c a s)
unfolding send_session_connect_request clear_last_publication_error
send_session_connect_request-QuietSent c offer_throws s = record { quiet = Quiet-refl s }
send_session_connect_request-QuietSent c (status result) s =
    QuietSent-if (is_positive result)
      (record { quiet = record { keepalive = refl; header = refl; stays = λ h. (h, refl, refl) } })
      (record { quiet = handle_offer_failure-Quiet result s })

request_loop-QuietSent :
    (c : Config) (left i : ℕ) (offers : ℕ → Answer) (s : Session)
    → QuietSent s (request_loop c left i offers s)
unfolding request_loop
request_loop-QuietSent c zero i offers s = record { quiet = Quiet-refl s }
request_loop-QuietSent c (suc left) i offers s =
    let (s', sent) = send_session_connect_request c (offers i) s in
    let first = (send_session_connect_request-QuietSent c (offers i) s).quiet in
    QuietSent-if sent (record { quiet = first })
      (QuietSent-trans first (request_loop-QuietSent c left (i + 1) offers s'))

-- A try that succeeds leaves the session connected.
pub record IsTried (tried : Session × Bool) : Type 0 where
  pub synced : IsSynced tried.0
  pub up : tried.1 ≡ true → tried.0.connected ≡ true

IsTried-if :
    {x y : Session × Bool} (b : Bool) → IsTried x → IsTried y → IsTried (if b then x else y)
IsTried-if true p q = p
IsTried-if false p q = q

-- The same with the test in hand.
IsTried-connected :
    (s : Session) {y : Session × Bool}
    → IsSynced s
    → IsTried y
    → IsTried (if s.connected then (s, true) else y)
IsTried-connected s {y} v q = go s.connected refl
  where
    go : (b : Bool) → s.connected ≡ b → IsTried (if b then (s, true) else y)
    go true e = record { synced = v; up = λ h. e }
    go false e = q

failed-IsTried : (s : Session) → IsSynced s → IsTried (s, false)
failed-IsTried s v = record { synced = v; up = λ h. cc }

await_session-IsTried :
    (m : ℤ) (rounds : List (List ParseResult)) (last : List ParseResult) (s : Session)
    → IsSynced s
    → IsTried (await_session m rounds last s)
unfolding await_session
await_session-IsTried m [] last s v = record {
  synced = handle_session_events-IsSynced last s v;
  up = λ h. h;
}
await_session-IsTried m (events ∷ rounds) last s v =
    let s' = handle_session_events events s in
    let v' = handle_session_events-IsSynced events s v in
    IsTried-connected s' v' (
      IsTried-if (is_elsewhere s'.redirected_to_member_id m) (failed-IsTried s' v')
        (await_session-IsTried m rounds last s' v'))

redirect_set-IsSynced :
    (s : Session) (m : ℤ) → IsSynced s → IsSynced (record s { redirected_to_member_id = m })
redirect_set-IsSynced s m v =
    Quiet-IsSynced (record { keepalive = refl; header = refl; stays = λ h. (h, refl, refl) }) v

publication_set-IsSynced :
    (s : Session) (b : Bool) → IsSynced s → IsSynced (record s { ingress_publication = b })
publication_set-IsSynced s b v =
    Quiet-IsSynced (record { keepalive = refl; header = refl; stays = λ h. (h, refl, refl) }) v

leader_set-IsSynced :
    (s : Session) (m : ℤ) → IsSynced s → IsSynced (record s { leader_member_id = m })
leader_set-IsSynced s m v =
    Quiet-IsSynced (record { keepalive = refl; header = refl; stays = λ h. (h, refl, refl) }) v

request_and_wait-IsTried :
    (stoi : Bytes → Option ℤ) (c : Config) (m : ℤ) (t : Try) (s : Session)
    → IsSynced s
    → IsTried (request_and_wait stoi c m t s)
unfolding request_and_wait
request_and_wait-IsTried stoi c m t s v =
    let (s', sent) = request_loop c 20 0 t.offers s in
    let v' = Quiet-IsSynced (request_loop-QuietSent c 20 0 t.offers s).quiet v in
    let s2 = handle_session_events t.while_sending s' in
    let v2 = handle_session_events-IsSynced t.while_sending s' v' in
    IsTried-if sent
      (await_session-IsTried m t.rounds t.last_events (record s2 { leader_member_id = m })
        (leader_set-IsSynced s2 m v2))
      (failed-IsTried s2 v2)

pub try_connect_to_member-IsTried :
    (stoi : Bytes → Option ℤ) (c : Config) (m : ℤ) (t : Try) (s : Session)
    → IsSynced s
    → IsTried (try_connect_to_member stoi c m t s)
unfolding try_connect_to_member
try_connect_to_member-IsTried stoi c m t s v =
    let waiting = record s { ingress_publication = t.found } in
    let w = publication_set-IsSynced s t.found v in
    IsTried-if (is_empty (resolve_endpoint_for_member stoi c.cluster_endpoints m))
      (failed-IsTried s v)
      (IsTried-if t.add_throws (failed-IsTried _ (publication_set-IsSynced s false v)) (
        IsTried-if (not t.found || not t.publication_up) (failed-IsTried waiting w)
          (request_and_wait-IsTried stoi c m t waiting w)))

-- An attempt that returns gives the connected session's result.
pub data IsEnded : Ended → Type 0 where
  has_returned :
      {p : Progress}
      → IsSynced p.session
      → p.session.connected ≡ true
      → IsEnded (returned (connected_result p.session) p)
  has_gone_on : {p : Progress} → IsSynced p.session → IsEnded (goes_on p)

IsEnded-if : {x y : Ended} (b : Bool) → IsEnded x → IsEnded y → IsEnded (if b then x else y)
IsEnded-if true p q = p
IsEnded-if false p q = q

-- The same for a branch on whether a try succeeded.
IsEnded-done :
    {tried : Session × Bool} {x y : Ended}
    → ((tried.0.connected ≡ true) → IsEnded x)
    → IsEnded y
    → IsTried tried
    → IsEnded (if tried.1 then x else y)
IsEnded-done {tried} {x} {y} f q t = go tried.1 refl
  where
    go : (b : Bool) → tried.1 ≡ b → IsEnded (if b then x else y)
    go true e = f (t.up e)
    go false e = q

module _ (stoi : Bytes → Option ℤ) (c : Config) (env : ℕ → Try) where
  try_member-IsTried :
      (m : ℤ) (p : Progress) → IsSynced p.session → IsTried (try_member stoi c env m p)
  unfolding try_member
  try_member-IsTried m p v = try_connect_to_member-IsTried stoi c m (env p.tries) p.session v

  redirected_attempt-IsEnded :
      (target : ℤ) (p : Progress)
      → IsSynced p.session
      → IsEnded (redirected_attempt stoi c env target p)
  unfolding redirected_attempt
  redirected_attempt-IsEnded target p v =
      let (s', done) = try_member stoi c env target p in
      let t = try_member-IsTried target p v in
      let w = redirect_set-IsSynced s' minus_one t.synced in
      IsEnded-done (λ up. has_returned w up)
        (has_gone_on (kept (ltb_ℤ s'.redirected_to_member_id (pos 0)) s' t.synced w)) t
    where
      kept :
          (b : Bool) (s' : Session)
          → IsSynced s'
          → IsSynced (record s' { redirected_to_member_id = minus_one })
          → IsSynced (if b then record s' { redirected_to_member_id = minus_one } else s')
      kept true s' v w = w
      kept false s' v w = v

  member_loop-IsEnded :
      (left m : ℕ) (p : Progress) → IsSynced p.session → IsEnded (member_loop stoi c env left m p)
  unfolding member_loop
  member_loop-IsEnded zero m p v = has_gone_on v
  member_loop-IsEnded (suc left) m p v =
      let s0 = record (p.session) { redirected_to_member_id = minus_one } in
      let p0 = record p { session = s0; tried_members = insert (pos m) p.tried_members } in
      let (s', done) = try_member stoi c env (pos m) p0 in
      let p' = record p0 { session = s'; tries = p.tries + 1 } in
      let t = try_member-IsTried (pos m) p0 (redirect_set-IsSynced p.session minus_one v) in
      let seen = mem (pos m) p.tried_members in
      let next = if seen then p else p' in
      let rest = member_loop-IsEnded left (m + 1) next (next_synced seen p p' v t.synced) in
      IsEnded-if seen rest (
        IsEnded-done (λ up. has_returned t.synced up)
          (IsEnded-if (is_elsewhere s'.redirected_to_member_id (pos m)) (has_gone_on t.synced) rest)
          t)
    where
      next_synced :
          (b : Bool) (p p' : Progress)
          → IsSynced p.session
          → IsSynced p'.session
          → IsSynced (if b then p else p').session
      next_synced true p p' v w = v
      next_synced false p p' v w = w

  pub connect_attempt-IsEnded :
      (p : Progress) → IsSynced p.session → IsEnded (connect_attempt stoi c env p)
  unfolding connect_attempt
  connect_attempt-IsEnded p v =
      let target = p.session.redirected_to_member_id in
      IsEnded-if (can_follow stoi c env target p) (redirected_attempt-IsEnded target p v) (
        IsEnded-if (not (ltb_ℤ target (pos 0))) (has_gone_on v)
          (member_loop-IsEnded (length c.cluster_endpoints) 0 p v))
