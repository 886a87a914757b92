-- ===== src/Session/Ending.antt =====
-- How a session ends: `disconnect`, a lost connection, and a `connect` with nobody left to try.
use aeron_cluster_client_cpp.Prelude.{
  ℕ, zero, suc, ◌+◌, ◌≡◌, refl, ap, ◌∙◌, Bytes, List, ◌∷◌, Bool, true, false, if◌then◌else◌, ◌||◌,
  ◌&&◌,
}
use aeron_cluster_client_cpp.Prelude.Int.{minus_one}
use aeron_cluster_client_cpp.Encoder.{encode_session_close_request}
use aeron_cluster_client_cpp.Session.State.{Config, Session}
use aeron_cluster_client_cpp.Session.Send.{Link, send_raw_message}
use aeron_cluster_client_cpp.Session.Close.{close_loop, disconnect, should_send_close}
use aeron_cluster_client_cpp.Session.Sent.{Delivers, send_raw_message-Delivers}

-- Nothing was taken, or this message alone.
pub data AtMostOnce (m : Bytes) (s s' : Session) : Type 0 where
  not_taken : s'.taken ≡ s.taken → AtMostOnce m s s'
  taken_once : s'.taken ≡ m ∷ s.taken → AtMostOnce m s s'

one_try :
    (m : Bytes) (s s1 rest : Session) (sent : Bool)
    → Delivers m s (s1, sent)
    → AtMostOnce m s1 rest
    → AtMostOnce m s (if sent then s1 else rest)
one_try m s s1 rest true d r = taken_once (d.on_success refl)
one_try m s s1 rest false d (not_taken e) = not_taken (e ∙ d.on_failure refl)
one_try m s s1 rest false d (taken_once e) =
    taken_once (e ∙ ap (λ (t : List Bytes). m ∷ t) (d.on_failure refl))

close_loop-AtMostOnce :
    (c : Config) (left i : ℕ) (links : ℕ → Link) (m : Bytes) (s : Session)
    → AtMostOnce m s (close_loop c left i links m s)
unfolding close_loop
close_loop-AtMostOnce c zero i links m s = not_taken refl
close_loop-AtMostOnce c (suc left) i links m s =
    let (s1, sent) = send_raw_message c (links i) m s in
    one_try m s s1 (close_loop c left (i + 1) links m s1) sent
      (send_raw_message-Delivers c (links i) m s) (close_loop-AtMostOnce c left (i + 1) links m s1)

AtMostOnce-if :
    {m : Bytes} {s x : Session} (b : Bool) → AtMostOnce m s x → AtMostOnce m s (if b then x else s)
AtMostOnce-if true p = p
AtMostOnce-if false p = not_taken refl

AtMostOnce-ended :
    {m : Bytes} {s x y : Session} → y.taken ≡ x.taken → AtMostOnce m s x → AtMostOnce m s y
AtMostOnce-ended e (not_taken h) = not_taken (e ∙ h)
AtMostOnce-ended e (taken_once h) = taken_once (e ∙ h)

-- Whatever the publication answers, `disconnect` leaves the session without a publication, not
-- connected and with session id -1, and the publication has taken at most one message more, which
-- is the close request of the session's leadership term and id.
pub disconnect-closed :
    (c : Config) (up : Bool) (links : ℕ → Link) (s : Session)
    → ((disconnect c up links s).connected ≡ false)
      × ((disconnect c up links s).ingress_publication ≡ false)
      × ((disconnect c up links s).session_id ≡ minus_one)
      × AtMostOnce
          (encode_session_close_request s.leadership_term_id s.session_id)
          s
          (disconnect c up links s)
unfolding disconnect
disconnect-closed c up links s =
    let request = encode_session_close_request s.leadership_term_id s.session_id in
    let asked = close_loop-AtMostOnce c 3 0 links request s in
    (
      refl,
      refl,
      refl,
      AtMostOnce-ended refl (
          AtMostOnce-if (should_send_close s && s.ingress_publication && (up || s.connected))
            asked),
    )
