-- ===== src/Client/State/Spares.antt =====
-- What the sending of a commit leaves alone.
use aeron_cluster_client_cpp.Prelude.{
  ◌≡◌, refl, Bytes, List, Bool, true, false, if◌then◌else◌, Option, none, some,
}
use aeron_cluster_client_cpp.Json.{Scalar}
use aeron_cluster_client_cpp.Sbe.Exception.{Result, ok, throws}
use aeron_cluster_client_cpp.Session.State.{Session}
use aeron_cluster_client_cpp.Commit.{CommitOffset, commit_message}
use aeron_cluster_client_cpp.Session.Send.{send_combined_message}
use aeron_cluster_client_cpp.Commit.Wire.{build_commit_offset_message}
use aeron_cluster_client_cpp.Client.State.{Setup, Client, client_is_connected}
use aeron_cluster_client_cpp.Client.State.Sending.{
  Sending, send_commit_offset, client_commit_message, with_frame, sent_by, is_terminated,
}
use aeron_cluster_client_cpp.Client.State.Incoming.{reported}

-- What sending leaves alone.
pub record Spares (c c' : Client) : Type 0 where
  pub delivered : c'.delivered ≡ c.delivered
  pub processed : c'.processed ≡ c.processed
  pub commits : c'.commits ≡ c.commits

Spares-same : (c : Client) → Spares c c
Spares-same c = record { delivered = refl; processed = refl; commits = refl }

guarded-Spares :
    (terminated up : Bool) (raised sent refused : Client × Option Bool) (c : Client)
    → Spares c raised.0
    → Spares c sent.0
    → Spares c refused.0
    → Spares c (if terminated then raised else if up then sent else refused).0
guarded-Spares true up raised sent refused c r s f = r
guarded-Spares false true raised sent refused c r s f = s
guarded-Spares false false raised sent refused c r s f = f

with_frame-Spares :
    (send : Bytes → Session × Bool) (c : Client) (frame : Result Bytes)
    → Spares c (with_frame (λ (f : Bytes). sent_by c (send f)) c frame).0
with_frame-Spares send c (ok frame) = record { delivered = refl; processed = refl; commits = refl }
with_frame-Spares send c (throws e) = Spares-same c

reported-Spares : (x : Client × Option Bool) (c : Client) → Spares c x.0 → Spares c (reported x)
reported-Spares (c', some success) c s = s
reported-Spares (c', none) c s = record {
  delivered = s.delivered;
  processed = s.processed;
  commits = s.commits;
}

module _ (write_string : List (Bytes × Scalar) → Bytes) (setup : Setup) where
  send_commit_offset-Spares :
      (env : Sending) (offset : CommitOffset) (c : Client)
      → Spares c (send_commit_offset write_string setup env offset c).0
  unfolding send_commit_offset
  send_commit_offset-Spares env offset c =
      let frame =
        build_commit_offset_message write_string env.now env.later offset.message_identifier
          offset in
      guarded-Spares (is_terminated c) (client_is_connected env.session_up env.egress_up c) _ _ _ c
        (Spares-same c)
        (with_frame-Spares
          (λ (f : Bytes). send_combined_message setup.config env.up_before env.link f c.session) c
          frame)
        (Spares-same c)

  -- The commit is kept, whether its message is sent or not.
  pub client_commit_message_lem :
      (env : Sending) (offset : CommitOffset) (c : Client)
      → Spares
          (record c { commits = commit_message offset c.commits })
          (reported (client_commit_message write_string setup env offset c))
  unfolding client_commit_message
  client_commit_message_lem env offset c =
      let c1 = record c { commits = commit_message offset c.commits } in
      reported-Spares (send_commit_offset write_string setup env offset c1) c1
        (send_commit_offset-Spares env offset c1)
