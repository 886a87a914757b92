-- ===== src/Session/Connect.antt =====
-- `connect`, `try_connect_to_member` and `send_session_connect_request`. What Aeron answers and
-- which session events the polling thread handles between two steps are arguments.
use aeron_cluster_client_cpp.Prelude.{
  ℕ, zero, suc, ◌+◌, Bytes, List, [], ◌∷◌, Bool, true, false, not, ◌&&◌, ◌||◌, Option, length,
  is_empty, if◌then◌else◌,
}
use aeron_cluster_client_cpp.Prelude.Int.{ℤ, pos, negsuc, minus_one, eq_ℤ, ltb_ℤ, is_positive}
use aeron_cluster_client_cpp.Encoder.{encode_session_connect_request}
use aeron_cluster_client_cpp.Parser.Outcome.{ParseResult}
use aeron_cluster_client_cpp.Session.State.{Config, Session}
use aeron_cluster_client_cpp.Session.Offer.{clear_last_publication_error, handle_offer_failure}
use aeron_cluster_client_cpp.Session.Send.{Answer, status, offer_throws}
use aeron_cluster_client_cpp.Session.Events.{handle_session_events}
use aeron_cluster_client_cpp.Session.Endpoint.{resolve_endpoint_for_member}

-- What happens around one try to connect to a member.
pub record Try : Type 0 where
  -- `addExclusivePublication` throws.
  pub add_throws : Bool
  -- After the wait of ten seconds, or before: the publication was found, and it is connected.
  pub found : Bool
  pub publication_up : Bool
  -- The answers to the offers of the connect request.
  pub offers : ℕ → Answer
  -- The events that are handled while the request is sent, and then before each check of the wait
  -- for the session; the wait ends with the list.
  pub while_sending : List ParseResult
  pub rounds : List (List ParseResult)
  -- The events that are handled after the last check, before the result is taken.
  pub last_events : List ParseResult

abbrev pub request_taken : Config → Session → Session
request_taken c s =
    let message =
      encode_session_connect_request s.correlation_id c.egress_stream_id c.response_channel
        c.protocol_semantic_version in
    record s { taken = message ∷ s.taken }

unfoldable pub send_session_connect_request : Config → Answer → Session → Session × Bool
unfolding clear_last_publication_error handle_offer_failure
send_session_connect_request c offer_throws s = (s, false)
send_session_connect_request c (status result) s =
    if is_positive result
    then (request_taken c (clear_last_publication_error s), true)
    else ((handle_offer_failure result s).0, false)

-- `while (connect_offer_retries-- > 0)`: the state, and whether the request was sent.
unfoldable pub request_loop : Config → ℕ → ℕ → (ℕ → Answer) → Session → Session × Bool
unfolding send_session_connect_request
request_loop c zero i offers s = (s, false)
request_loop c (suc left) i offers s =
    let (s', sent) = send_session_connect_request c (offers i) s in
    let rest = request_loop c left (i + 1) offers s' in if sent then (s', true) else rest

-- A redirect away from the member that is being tried.
abbrev pub is_elsewhere : ℤ → ℤ → Bool
is_elsewhere target member_id = not (ltb_ℤ target (pos 0)) && not (eq_ℤ target member_id)

-- The wait for the session.
unfoldable pub await_session :
    ℤ → List (List ParseResult) → List ParseResult → Session → Session × Bool
await_session member_id [] last_events s =
    let s' = handle_session_events last_events s in (s', s'.connected)
await_session member_id (events ∷ rounds) last_events s =
    let s' = handle_session_events events s in
    let rest = await_session member_id rounds last_events s' in
    if s'.connected
    then (s', true)
    else if is_elsewhere s'.redirected_to_member_id member_id
    then (s', false)
    else rest

module _ (stoi : Bytes → Option ℤ) (c : Config) where
  unfoldable pub request_and_wait : ℤ → Try → Session → Session × Bool
  unfolding request_loop await_session
  request_and_wait member_id t s =
      let (s', sent) = request_loop c 20 0 t.offers s in
      let s2 = handle_session_events t.while_sending s' in
      let waited =
        await_session member_id t.rounds t.last_events
          (record s2 { leader_member_id = member_id }) in
      if sent then waited else (s2, false)

  unfoldable pub try_connect_to_member : ℤ → Try → Session → Session × Bool
  unfolding request_and_wait resolve_endpoint_for_member
  try_connect_to_member member_id t s =
      let closed = record s { ingress_publication = false } in
      let waiting = record s { ingress_publication = t.found } in
      let tried = request_and_wait member_id t waiting in
      if is_empty (resolve_endpoint_for_member stoi c.cluster_endpoints member_id)
      then (s, false)
      else if t.add_throws
      then (closed, false)
      else if not t.found || not t.publication_up
      then (waiting, false)
      else tried

pub record Connection : Type 0 where
  pub success : Bool
  pub session_id : ℤ
  pub leader_member_id : ℤ
  pub leadership_term_id : ℤ

abbrev pub connected_result : Session → Connection
connected_result s = record {
  success = true;
  session_id = s.session_id;
  leader_member_id = s.leader_member_id;
  leadership_term_id = s.leadership_term_id;
}

-- `SessionConnectionResult result;`, returned with a message when every attempt has failed.
abbrev pub failed_result : Connection
failed_result = record {
  success = false;
  session_id = minus_one;
  leader_member_id = minus_one;
  leadership_term_id = minus_one;
}

-- `tried_members` is a set of member ids.
unfoldable pub mem : ℤ → List ℤ → Bool
mem m [] = false
mem m (x ∷ xs) = eq_ℤ m x || mem m xs

abbrev pub insert : ℤ → List ℤ → List ℤ
insert m xs = if mem m xs then xs else m ∷ xs

pub erase : ℤ → List ℤ → List ℤ
erase m [] = []
erase m (x ∷ xs) = let rest = erase m xs in if eq_ℤ m x then rest else x ∷ rest

-- The variables of `connect`, with the number of tries that were made.
pub record Progress : Type 0 where
  pub session : Session
  pub tried_members : List ℤ
  pub tries : ℕ

-- How an attempt, or the loop over the members, ends.
pub data Ended : Type 0 where
  returned : Connection → Progress → Ended
  goes_on : Progress → Ended

abbrev pub end_attempt :
    List ParseResult → (Progress → Connection × Progress) → Ended → Connection × Progress
end_attempt sleep next (returned r p) = (r, p)
end_attempt sleep next (goes_on p) =
    next (record p { session = handle_session_events sleep p.session })

-- `attempt < config_.max_retries`
abbrev pub rounds_of : ℤ → ℕ
rounds_of (pos n) = n
rounds_of (negsuc n) = 0

module _ (stoi : Bytes → Option ℤ) (c : Config) (env : ℕ → Try) where
  unfoldable pub try_member : ℤ → Progress → Session × Bool
  unfolding try_connect_to_member
  try_member m p = try_connect_to_member stoi c m (env p.tries) p.session

  -- The attempt that follows a redirect.
  unfoldable pub redirected_attempt : ℤ → Progress → Ended
  unfolding try_member erase mem
  redirected_attempt target p =
      let (s', done) = try_member target p in
      let found = record s' { redirected_to_member_id = minus_one } in
      let tried = insert target p.tried_members in
      let kept =
        if ltb_ℤ s'.redirected_to_member_id (pos 0)
        then record s' { redirected_to_member_id = minus_one }
        else s' in
      if done
      then returned (connected_result found)
          (record { session = found; tried_members = tried; tries = p.tries + 1 })
      else goes_on
          (record { session = kept; tried_members = erase target tried; tries = p.tries + 1 })

  -- The loop over the members from index `m` on, with `left` members left.
  unfoldable pub member_loop : ℕ → ℕ → Progress → Ended
  unfolding try_member mem
  member_loop zero m p = goes_on p
  member_loop (suc left) m p =
      let s0 = record (p.session) { redirected_to_member_id = minus_one } in
      let p0 = record p { session = s0; tried_members = insert (pos m) p.tried_members } in
      let (s', done) = try_member (pos m) p0 in
      let p' = record p0 { session = s'; tries = p.tries + 1 } in
      let seen = mem (pos m) p.tried_members in
      let rest = member_loop left (m + 1) (if seen then p else p') in
      if seen
      then rest
      else if done
      then returned (connected_result s') p'
      else if is_elsewhere s'.redirected_to_member_id (pos m)
      then goes_on p'
      else rest

  -- `redirect_target >= 0 && redirect_target < size && !tried`
  unfoldable pub can_follow : ℤ → Progress → Bool
  unfolding mem
  can_follow target p =
      not (ltb_ℤ target (pos 0))
      && ltb_ℤ target (pos (length c.cluster_endpoints))
      && not (mem target p.tried_members)

  unfoldable pub connect_attempt : Progress → Ended
  unfolding redirected_attempt member_loop can_follow
  connect_attempt p =
      let target = p.session.redirected_to_member_id in
      let followed = redirected_attempt target p in
      let searched = member_loop (length c.cluster_endpoints) 0 p in
      if can_follow target p
      then followed
      else if not (ltb_ℤ target (pos 0))
      then goes_on p
      else searched

  -- `sleeps n` are the events that are handled in the sleep at the end of an attempt.
  unfoldable pub connect_loop : ℕ → ℕ → (ℕ → List ParseResult) → Progress → Connection × Progress
  unfolding connect_attempt
  connect_loop zero n sleeps p = (failed_result, p)
  connect_loop (suc left) n sleeps p =
      end_attempt (sleeps n) (connect_loop left (n + 1) sleeps) (connect_attempt p)

  unfoldable pub connect : (ℕ → List ParseResult) → Session → Connection × Progress
  unfolding connect_loop
  connect sleeps s =
      connect_loop (rounds_of c.max_retries) 0 sleeps
        (record { session = s; tried_members = []; tries = 0 })
