-- ===== src/Client/State/CommitsSent.antt =====
-- What the publication takes when the client reports a commit.
use aeron_cluster_client_cpp.Prelude.{
  ◌≡◌, refl, sym, subst, ap, ◌∙◌, Bytes, List, ◌∷◌, ◌++◌, Bool, true, false, if◌then◌else◌, Option,
  none, some,
}
use aeron_cluster_client_cpp.Prelude.Int.{to_u64}
use aeron_cluster_client_cpp.Json.{Scalar}
use aeron_cluster_client_cpp.Sbe.Exception.{Result, ok, throws}
use aeron_cluster_client_cpp.Parser.Dispatch.{session_header}
use aeron_cluster_client_cpp.Session.State.{Session}
use aeron_cluster_client_cpp.Session.Send.{send_combined_message, send_raw_message}
use aeron_cluster_client_cpp.Session.History.{Reach}
use aeron_cluster_client_cpp.Session.Sent.{
  send_raw_message-Delivers, send_combined_message-session_header,
}
use aeron_cluster_client_cpp.Commit.{CommitOffset}
use aeron_cluster_client_cpp.Commit.Wire.{build_commit_message, build_commit_offset_message}
use aeron_cluster_client_cpp.Client.State.{Setup, Client, client_is_connected}
use aeron_cluster_client_cpp.Client.State.Sending.{
  Sending, send_commit_offset, send_commit_request, with_frame, sent_by, is_terminated,
}

-- An answer of true is that of the branch that sends.
sent_only :
    (terminated up : Bool) (sent : Client × Option Bool) (c : Client)
    → (if terminated then (c, none) else if up then sent else (c, some false)).1 ≡ some true
    → (if terminated then (c, none) else if up then sent else (c, some false)) ≡ sent
sent_only true up sent c e = cc
sent_only false true sent c e = refl
sent_only false false sent c e = cc

-- The frame was built, and sending it has succeeded.
record IsFrameSent (send : Bytes → Session × Bool) (frame : Result Bytes) (s' : Session)
    : Type 0 where
  bytes : Bytes
  built : frame ≡ ok bytes
  success : (send bytes).1 ≡ true
  left : s' ≡ (send bytes).0

with_frame-IsFrameSent :
    (send : Bytes → Session × Bool) (c : Client) (frame : Result Bytes)
    → (with_frame (λ (f : Bytes). sent_by c (send f)) c frame).1 ≡ some true
    → IsFrameSent send frame (with_frame (λ (f : Bytes). sent_by c (send f)) c frame).0.session
with_frame-IsFrameSent send c (ok frame) e = record {
  bytes = frame;
  built = refl;
  success = cc;
  left = refl;
}
with_frame-IsFrameSent send c (throws x) e = cc

module _ (write_string : List (Bytes × Scalar) → Bytes) (setup : Setup) where
  offset_sent :
      (env : Sending) (offset : CommitOffset) (c : Client)
      → (send_commit_offset write_string setup env offset c).1 ≡ some true
      → IsFrameSent
          (λ (f : Bytes). send_combined_message setup.config env.up_before env.link f c.session)
          (build_commit_offset_message write_string env.now env.later offset.message_identifier
            offset)
          (send_commit_offset write_string setup env offset c).0.session
  unfolding send_commit_offset
  offset_sent env offset c e =
      let send =
        λ (f : Bytes). send_combined_message setup.config env.up_before env.link f c.session in
      let frame =
        build_commit_offset_message write_string env.now env.later offset.message_identifier
          offset in
      let sent = with_frame (λ (f : Bytes). sent_by c (send f)) c frame in
      let same =
        sent_only (is_terminated c) (client_is_connected env.session_up env.egress_up c) sent c e in
      subst (λ (x : Client × Option Bool). IsFrameSent send frame x.0.session) (sym same)
        (with_frame-IsFrameSent send c frame
          (sym (ap (λ (x : Client × Option Bool). x.1) same) ∙ e))

  request_sent :
      (env : Sending) (topic : Bytes) (c : Client)
      → (send_commit_request write_string setup env topic c).1 ≡ some true
      → IsFrameSent
          (λ (f : Bytes). send_raw_message setup.config env.link f c.session)
          (build_commit_message env.now env.later topic setup.client_id)
          (send_commit_request write_string setup env topic c).0.session
  unfolding send_commit_request
  request_sent env topic c e =
      let send = λ (f : Bytes). send_raw_message setup.config env.link f c.session in
      let frame = build_commit_message env.now env.later topic setup.client_id in
      let sent = with_frame (λ (f : Bytes). sent_by c (send f)) c frame in
      let same =
        sent_only (is_terminated c) (client_is_connected env.session_up env.egress_up c) sent c e in
      subst (λ (x : Client × Option Bool). IsFrameSent send frame x.0.session) (sym same)
        (with_frame-IsFrameSent send c frame
          (sym (ap (λ (x : Client × Option Bool). x.1) same) ∙ e))

-- In a state that the session manager reaches, a commit offset that is reported as sent has gone to
-- the publication once, as the message of build_commit_offset_message behind the session header of
-- the current term and session.
pub send_commit_offset-taken :
    (write_string : List (Bytes × Scalar) → Bytes) (setup : Setup) (env : Sending)
    (offset : CommitOffset) (c : Client)
    → Reach c.session
    → (send_commit_offset write_string setup env offset c).1 ≡ some true
    → (frame : Bytes) × (build_commit_offset_message write_string env.now env.later
          offset.message_identifier offset
        ≡ ok frame)
      × ((send_commit_offset write_string setup env offset c).0.session.taken
          ≡ (session_header (to_u64 c.session.leadership_term_id) (to_u64 c.session.session_id) 0
              ++ frame)
            ∷ c.session.taken)
send_commit_offset-taken write_string setup env offset c r e =
    let s = offset_sent write_string setup env offset c e in
    (
      s.bytes,
      s.built,
      ap (λ (x : Session). x.taken) s.left
          ∙ send_combined_message-session_header setup.config env.up_before env.link s.bytes
              c.session r s.success,
    )

-- A commit request that is reported as sent has gone to the publication once, without a session
-- header.
pub send_commit_request-taken :
    (write_string : List (Bytes × Scalar) → Bytes) (setup : Setup) (env : Sending) (topic : Bytes)
    (c : Client)
    → (send_commit_request write_string setup env topic c).1 ≡ some true
    → (frame : Bytes) × (build_commit_message env.now env.later topic setup.client_id ≡ ok frame)
      × ((send_commit_request write_string setup env topic c).0.session.taken
          ≡ frame ∷ c.session.taken)
send_commit_request-taken write_string setup env topic c e =
    let s = request_sent write_string setup env topic c e in
    (
      s.bytes,
      s.built,
      ap (λ (x : Session). x.taken) s.left
          ∙ (send_raw_message-Delivers setup.config env.link s.bytes c.session).on_success
              s.success,
    )
