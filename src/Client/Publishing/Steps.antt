-- ===== src/Client/Publishing/Steps.antt =====
-- The steps of the publishing calls of the client, one by one.
use aeron_cluster_client_cpp.Prelude.{
  ℕ, ◌+◌, ◌≡◌, ◌≢◌, refl, ap, ◌∙◌, inl, inr, Bytes, List, [], ◌∷◌, Bool, true, false, Bool-cases,
  str, if◌then◌else◌, arith,
}
use aeron_cluster_client_cpp.Prelude.Int.{to_u64}
use aeron_cluster_client_cpp.Json.{JsonLib}
use aeron_cluster_client_cpp.Encoder.Cut.{Fit}
use aeron_cluster_client_cpp.Parser.{parse_message}
use aeron_cluster_client_cpp.Parser.Messages.{of_short_message}
use aeron_cluster_client_cpp.Session.State.{Session}
use aeron_cluster_client_cpp.Session.History.{Reach}
use aeron_cluster_client_cpp.Session.Publish.{publish_message}
use aeron_cluster_client_cpp.Session.Publish.Delivery.{publish_message-received}
use aeron_cluster_client_cpp.Client.State.{Setup, Client, client_is_connected}
use aeron_cluster_client_cpp.Client.State.Sending.{Sending, is_terminated, sent_by}
use aeron_cluster_client_cpp.Client.Publishing.{
  Publisher, Ending, returned, conclude, ensure_connected, send_published, unless_errors,
  invalid_message_exception,
}

-- The call has returned an identifier.
abbrev pub has_returned : Ending → Bool
has_returned (returned id) = true
has_returned _ = false

-- The publication has taken one message more, without its last eight bytes, and this is what the
-- client's own parser makes of it.
abbrev pub Reads : JsonLib → Session → Session → Sending → Bytes → Bytes → Bytes → Type 0
Reads lib s s' env message_type payload headers =
    (message : Bytes) × (s'.taken ≡ message ∷ s.taken)
    × (parse_message lib message
        ≡ of_short_message lib (to_u64 env.time) message_type env.message_id payload headers)

pub finished :
    (sent : ℕ) (id base : Bytes) (c : Client) (x : Session × Bool)
    → has_returned (conclude sent id base (sent_by c x)).1 ≡ true
    → (x.1 ≡ true)
      × ((conclude sent id base (sent_by c x)).1 ≡ returned id)
      × ((conclude sent id base (sent_by c x)).0.stats_messages_sent ≡ sent + 1)
      × ((conclude sent id base (sent_by c x)).0.client.session ≡ x.0)
finished sent id base c (s, true) h = (refl, refl, refl, refl)
finished sent id base c (s, false) h = cc

pub success_returns :
    (sent : ℕ) (id base : Bytes) (c : Client) (x : Session × Bool)
    → x.1 ≡ true
    → has_returned (conclude sent id base (sent_by c x)).1 ≡ true
success_returns sent id base c (s, true) h = refl
success_returns sent id base c (s, false) h = cc

module _ (setup : Setup) where
  pub send_published-Reads :
      (lib : JsonLib) (env : Sending) (base topic message_type payload headers : Bytes)
      (p : Publisher)
      → Reach p.client.session
      → Fit topic message_type env.message_id payload headers
      → has_returned (send_published setup env base topic message_type payload headers p).1 ≡ true
      → ((send_published setup env base topic message_type payload headers p).1
          ≡ returned env.message_id)
        × ((send_published setup env base topic message_type payload headers
              p).0.stats_messages_sent
            ≡ p.stats_messages_sent + 1)
        × Reads lib p.client.session
            (send_published setup env base topic message_type payload headers p).0.client.session
            env
            message_type
            payload
            headers
  unfolding send_published
  send_published-Reads lib env base topic message_type payload headers p r fit h =
      let x =
        publish_message setup.config env.up_first env.up_before env.link env.time topic message_type
          env.message_id payload headers p.client.session in
      let (done, ended, counted, same) =
        finished p.stats_messages_sent env.message_id base p.client x h in
      let (message, took, parsed) =
        publish_message-received lib setup.config env.up_first env.up_before env.link env.time topic
          message_type env.message_id payload headers p.client.session r fit done in
      (ended, counted, (message, ap (λ (s : Session). s.taken) same ∙ took, parsed))

pub through :
    (env : Sending) (p : Publisher) (rest : Publisher × Ending)
    → has_returned (ensure_connected env p rest).1 ≡ true
    → (is_terminated p.client ≡ false)
      × (client_is_connected env.session_up env.egress_up p.client ≡ true)
      × (ensure_connected env p rest ≡ rest)
unfolding ensure_connected
through env p rest h = elim (Bool-cases (is_terminated p.client)) [
  | inl t ↦ let bad : false ≡ true = rw t at h in cc
  | inr t ↦ elim (Bool-cases (client_is_connected env.session_up env.egress_up p.client)) [
    | inl u ↦ (t, u, rw (t, u))
    | inr u ↦ let bad : false ≡ true = rw (t, u) at h in cc
  ]
]

pub stays_put :
    (env : Sending) (p : Publisher) (rest : Publisher × Ending)
    → (rest.0 ≡ p) × (has_returned rest.1 ≡ false)
    → ((ensure_connected env p rest).0 ≡ p) × (has_returned (ensure_connected env p rest).1 ≡ false)
unfolding ensure_connected
stays_put env p rest h = ground (arith, h)

pub passes :
    (errors : List Bytes) (p : Publisher) (rest : Publisher × Ending)
    → has_returned (unless_errors errors p rest).1 ≡ true
    → (errors ≡ []) × (unless_errors errors p rest ≡ rest)
passes [] p rest h = (refl, refl)
passes (e ∷ errors) p rest h = cc

pub refuses :
    (errors : List Bytes) (p : Publisher) (rest : Publisher × Ending)
    → errors ≢ []
    → ((unless_errors errors p rest).0 ≡ p) × (has_returned (unless_errors errors p rest).1 ≡ false)
refuses [] p rest h = absurd (h refl)
refuses (e ∷ errors) p rest h = (refl, refl)

pub not_empty :
    (b : Bool) (p : Publisher) (sent : Publisher × Ending)
    → has_returned (if b then (p, invalid_message_exception (str "Topic is empty")) else sent).1
      ≡ true
    → (if b then (p, invalid_message_exception (str "Topic is empty")) else sent) ≡ sent
not_empty true p sent h = cc
not_empty false p sent h = refl
