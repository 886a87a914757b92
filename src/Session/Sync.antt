-- ===== src/Session/Sync.antt =====
-- The prepared buffers against the session's state.
use aeron_cluster_client_cpp.Prelude.{
  ℕ, ◌+◌, ◌≡◌, refl, sym, ap, ap₂, ◌∙◌, Bytes, List, [], ◌∷◌, ◌++◌, Bool, true, false, le,
  bytes_of_u64, if◌then◌else◌, ◌||◌,
}
use aeron_cluster_client_cpp.Prelude.Int.{ℤ, pos, to_u64, minus_one, eq_ℤ}
use aeron_cluster_client_cpp.Encoder.{write_int_64, write_uint_16}
use aeron_cluster_client_cpp.Encoder.Layout.{session_message}
use aeron_cluster_client_cpp.Parser.Dispatch.{session_header}
use aeron_cluster_client_cpp.Parser.Outcome.{ParseResult, is_session_event}
use aeron_cluster_client_cpp.Session.State.{
  Session, make_session, create_keepalive_buffer, create_session_message_header_buffer,
  update_keepalive_buffer, update_session_header, call_state_callback,
}
use aeron_cluster_client_cpp.Session.Events.{
  handle_session_event, handle_session_events, handle_session_ok, handle_session_redirect,
  handle_session_error, handle_session_closed, session_event_ok, session_event_redirect,
  session_event_error, session_event_authentication_rejected, session_event_closed,
}

-- The buffers have the wire format of a keep-alive and of a session header, and while the session
-- is connected they carry its term and its id.
pub record IsSynced (s : Session) : Type 0 where
  pub keepalive : (term id : ℕ) × (s.keepalive_buffer ≡ session_message 5 term id)
  pub header : (term id stamp : ℕ) × (s.session_header_buffer ≡ session_header term id stamp)
  pub current_keepalive :
      s.connected ≡ true
      → s.keepalive_buffer ≡ session_message 5 (to_u64 s.leadership_term_id) (to_u64 s.session_id)
  pub current_header :
      s.connected ≡ true
      → s.session_header_buffer
        ≡ session_header (to_u64 s.leadership_term_id) (to_u64 s.session_id) 0

-- What an operation may change without a connection appearing: the rest of the state is free.
pub record Quiet (s s' : Session) : Type 0 where
  pub keepalive : s'.keepalive_buffer ≡ s.keepalive_buffer
  pub header : s'.session_header_buffer ≡ s.session_header_buffer
  pub stays :
      s'.connected ≡ true
      → (s.connected ≡ true)
        × (s'.leadership_term_id ≡ s.leadership_term_id)
        × (s'.session_id ≡ s.session_id)

pub Quiet-IsSynced : {s s' : Session} → Quiet s s' → IsSynced s → IsSynced s'
Quiet-IsSynced {s} {s'} q v = record {
  keepalive = (v.keepalive.0, v.keepalive.1, q.keepalive ∙ v.keepalive.2);
  header = (v.header.0, v.header.1, v.header.2, q.header ∙ v.header.3);
  current_keepalive = λ up.
      let (before, term, id) = q.stays up in
      q.keepalive
      ∙ v.current_keepalive before
      ∙ ap₂ (λ (t i : ℤ). session_message 5 (to_u64 t) (to_u64 i)) (sym term) (sym id);
  current_header = λ up.
      let (before, term, id) = q.stays up in
      q.header
      ∙ v.current_header before
      ∙ ap₂ (λ (t i : ℤ). session_header (to_u64 t) (to_u64 i) 0) (sym term) (sym id);
}

pub Quiet-refl : (s : Session) → Quiet s s
Quiet-refl s = record { keepalive = refl; header = refl; stays = λ up. (up, refl, refl) }

pub Quiet-trans : {s t u : Session} → Quiet s t → Quiet t u → Quiet s u
Quiet-trans p q = record {
  keepalive = q.keepalive ∙ p.keepalive;
  header = q.header ∙ p.header;
  stays = λ up.
      let (mid, term, id) = q.stays up in
      let (start, term', id') = p.stays mid in (start, term ∙ term', id ∙ id');
}

keepalive_rewritten :
    (a b : ℕ) (term id : ℤ)
    → write_int_64 (write_int_64 (session_message 5 a b) 8 term) 16 id
      ≡ session_message 5 (to_u64 term) (to_u64 id)
unfolding write_int_64
keepalive_rewritten a b term id =
    ap₂ (λ (x y : Bytes). le 2 16 ++ (le 2 5 ++ (le 2 111 ++ (le 2 8 ++ (x ++ y)))))
      (bytes_of_u64 (to_u64 term)) (bytes_of_u64 (to_u64 id))

header_rewritten :
    (a b d : ℕ) (term id : ℤ)
    → write_int_64 (write_int_64 (write_int_64 (session_header a b d) 8 term) 16 id) 24 (pos 0)
      ≡ session_header (to_u64 term) (to_u64 id) 0
unfolding write_int_64
header_rewritten a b d term id =
    ap₂ (λ (x y : Bytes). le 2 24 ++ (le 2 1 ++ (le 2 111 ++ (le 2 8 ++ (x ++ (y ++ le 8 0))))))
      (bytes_of_u64 (to_u64 term)) (bytes_of_u64 (to_u64 id))

pub make_session-IsSynced :
    (correlation_id : ℤ) (cb : Bool) → IsSynced (make_session correlation_id cb)
unfolding make_session create_keepalive_buffer create_session_message_header_buffer write_uint_16
    write_int_64
make_session-IsSynced correlation_id cb = record {
  keepalive = (0, 0, refl);
  header = (0, 0, 0, refl);
  current_keepalive = λ up. cc;
  current_header = λ up. cc;
}

pub Quiet-if :
    {s s' s'' : Session} (b : Bool) → Quiet s s' → Quiet s s'' → Quiet s (if b then s' else s'')
Quiet-if true p q = p
Quiet-if false p q = q

IsSynced-if :
    {s s' : Session} (b : Bool) → IsSynced s → IsSynced s' → IsSynced (if b then s else s')
IsSynced-if true v w = v
IsSynced-if false v w = w

-- The callback keeps the buffers and what they are compared with.
pub call_state_callback-Quiet : (up : Bool) (s : Session) → Quiet s (call_state_callback up s)
call_state_callback-Quiet up s =
    Quiet-if s.has_state_callback
      (record { keepalive = refl; header = refl; stays = λ h. (h, refl, refl) }) (Quiet-refl s)

-- A state that says it is not connected has nothing to agree with.
pub disconnected-Quiet :
    (s : Session) (id : ℤ) → Quiet s (record s { connected = false; session_id = id })
disconnected-Quiet s id = record { keepalive = refl; header = refl; stays = λ h. cc }

handle_session_ok-IsSynced :
    (result : ParseResult) (s : Session) → IsSynced s → IsSynced (handle_session_ok result s)
unfolding handle_session_ok update_session_header update_keepalive_buffer
handle_session_ok-IsSynced result s v =
    let (a, b, k) = v.keepalive in
    let (x, y, z, h) = v.header in
    let t = result.leadership_term_id in
    let i = result.correlation_id in
    let kb =
      ap (λ (m : Bytes). write_int_64 (write_int_64 m 8 t) 16 i) k ∙ keepalive_rewritten a b t i in
    let hb =
      ap (λ (m : Bytes). write_int_64 (write_int_64 (write_int_64 m 8 t) 16 i) 24 (pos 0)) h
      ∙ header_rewritten x y z t i in
    Quiet-IsSynced (call_state_callback-Quiet true _) (record {
      keepalive = (to_u64 t, to_u64 i, kb);
      header = (to_u64 t, to_u64 i, 0, hb);
      current_keepalive = λ up. kb;
      current_header = λ up. hb;
    })

handle_session_redirect-Quiet :
    (result : ParseResult) (s : Session) → Quiet s (handle_session_redirect result s)
unfolding handle_session_redirect
handle_session_redirect-Quiet result s = record {
  keepalive = refl;
  header = refl;
  stays = λ h. (h, refl, refl);
}

handle_session_error-Quiet : (s : Session) → Quiet s (handle_session_error s)
unfolding handle_session_error
handle_session_error-Quiet s =
    Quiet-trans (disconnected-Quiet s s.session_id) (call_state_callback-Quiet false _)

handle_session_closed-Quiet : (s : Session) → Quiet s (handle_session_closed s)
unfolding handle_session_closed
handle_session_closed-Quiet s =
    Quiet-trans (disconnected-Quiet s minus_one) (call_state_callback-Quiet false _)

-- A session event keeps the buffers in step with the session.
pub handle_session_event-IsSynced :
    (result : ParseResult) (s : Session) → IsSynced s → IsSynced (handle_session_event result s)
unfolding handle_session_event
handle_session_event-IsSynced result s v =
    let s1 = record s { session_events_received = s.session_events_received + 1 } in
    let counted : Quiet s s1 = record {
      keepalive = refl;
      header = refl;
      stays = λ h. (h, refl, refl);
    } in
    let w = Quiet-IsSynced counted v in
    let code = result.event_code in
    let closed =
      IsSynced-if (eq_ℤ code session_event_closed)
        (Quiet-IsSynced (handle_session_closed-Quiet s1) w) w in
    let failed =
      IsSynced-if (eq_ℤ code session_event_error || eq_ℤ code session_event_authentication_rejected)
        (Quiet-IsSynced (handle_session_error-Quiet s1) w) closed in
    let redirected =
      IsSynced-if (eq_ℤ code session_event_redirect)
        (Quiet-IsSynced (handle_session_redirect-Quiet result s1) w) failed in
    IsSynced-if (is_session_event result)
      (IsSynced-if (eq_ℤ code session_event_ok) (handle_session_ok-IsSynced result s1 w) redirected)
      v

pub handle_session_events-IsSynced :
    (events : List ParseResult) (s : Session)
    → IsSynced s
    → IsSynced (handle_session_events events s)
unfolding handle_session_events
handle_session_events-IsSynced [] s v = v
handle_session_events-IsSynced (e ∷ events) s v =
    handle_session_events-IsSynced events (handle_session_event e s)
      (handle_session_event-IsSynced e s v)
