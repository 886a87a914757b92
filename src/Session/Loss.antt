-- ===== src/Session/Loss.antt =====
-- What a lost connection does to the session: handle_connection_loss and classify_offer_failure.
use aeron_cluster_client_cpp.Prelude.{
  ◌≡◌, refl, sym, ap, ◌∙◌, ◌∷◌, Bool, true, false, if◌then◌else◌, ◌&&◌, Bool-cases, inl, inr,
}
use aeron_cluster_client_cpp.Session.State.{Session, call_state_callback}
use aeron_cluster_client_cpp.Session.Offer.{handle_connection_loss}

connected-call_state_callback :
    (up : Bool) (s : Session) → (call_state_callback up s).connected ≡ s.connected
connected-call_state_callback up s = elim (Bool-cases s.has_state_callback) [
  | inl e ↦ rw e refl
  | inr e ↦ rw e refl
]

state_calls-call_state_callback :
    (up : Bool) (s : Session)
    → (call_state_callback up s).state_calls
      ≡ (if s.has_state_callback then up ∷ s.state_calls else s.state_calls)
state_calls-call_state_callback up s = elim (Bool-cases s.has_state_callback) [
  | inl e ↦ rw e refl
  | inr e ↦ rw e refl
]

lost_again : (s : Session) → s.connected ≡ false → handle_connection_loss s ≡ s
unfolding handle_connection_loss
lost_again s e = rw e refl

lost :
    (s : Session)
    → s.connected ≡ true
    → handle_connection_loss s ≡ call_state_callback false (record s { connected = false })
unfolding handle_connection_loss
lost s e = rw e refl

disconnected : (s : Session) → (handle_connection_loss s).connected ≡ false
disconnected s = elim (Bool-cases s.connected) [
  | inl e ↦
      ap (λ (t : Session). t.connected) (lost s e)
      ∙ connected-call_state_callback false (record s { connected = false })
  | inr e ↦ ap (λ (t : Session). t.connected) (lost_again s e) ∙ e
]

told :
    (s : Session)
    → (handle_connection_loss s).state_calls
      ≡ (if s.connected && s.has_state_callback then false ∷ s.state_calls else s.state_calls)
told s = elim (Bool-cases s.connected) [
  | inl e ↦
      ap (λ (t : Session). t.state_calls) (lost s e)
      ∙ state_calls-call_state_callback false (record s { connected = false })
      ∙ ap
          (λ (b : Bool). if b && s.has_state_callback then false ∷ s.state_calls else s.state_calls)
          (sym e)
  | inr e ↦
      ap (λ (t : Session). t.state_calls) (lost_again s e)
      ∙ ap
          (λ (b : Bool). if b && s.has_state_callback then false ∷ s.state_calls else s.state_calls)
          (sym e)
]

-- After a lost connection the session is not connected, and the state callback has been told so
-- once more if it is set and the session was connected, and not otherwise; to lose the connection
-- again changes nothing.
pub handle_connection_loss-once :
    (s : Session)
    → ((handle_connection_loss s).connected ≡ false)
      × ((handle_connection_loss s).state_calls
          ≡ (if s.connected && s.has_state_callback then false ∷ s.state_calls else s.state_calls))
      × (handle_connection_loss (handle_connection_loss s) ≡ handle_connection_loss s)
handle_connection_loss-once s =
    (disconnected s, told s, lost_again (handle_connection_loss s) (disconnected s))
