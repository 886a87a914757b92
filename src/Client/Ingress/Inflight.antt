-- ===== src/Client/Ingress/Inflight.antt =====
-- What publish_topic leaves behind.
use aeron_cluster_client_cpp.Prelude.{
  ℕ, ◌+◌, ◌≤◌, ◌≡◌, refl, ap, ◌∙◌, Bytes, ◌++◌, Bool, true, false, bytes_eq, bytes_eq_iff, length,
  is_empty, str, if◌then◌else◌, Option, none, some, arith,
}
use aeron_cluster_client_cpp.Prelude.Dict.{lookup, lookup-insert, lookup-erase}
use aeron_cluster_client_cpp.Sbe.Exception.{Result, ok}
use aeron_cluster_client_cpp.Text.{to_string}
use aeron_cluster_client_cpp.Commit.Wire.Control.{topic_frame_lem}
use aeron_cluster_client_cpp.Client.State.{client_is_connected}
use aeron_cluster_client_cpp.Client.State.Sending.{Sending, is_terminated}
use aeron_cluster_client_cpp.Client.Ingress.{
  AckInfo, Outer, TopicEnding, topic_uuid, remember_outgoing, offer_ingress, hdrs_of, room_for,
  after_offer, offered, publish_topic, on_ack_default,
}

remembered :
    (uuid : Bytes) (ts : ℕ) (o : Outer)
    → lookup uuid o.inflight ≡ none
    → (lookup uuid (remember_outgoing uuid ts o).inflight ≡ some ts)
      × ((remember_outgoing uuid ts o).inner ≡ o.inner)
unfolding remember_outgoing
remembered uuid ts o new =
    let same : bytes_eq uuid uuid ≡ true = (bytes_eq_iff uuid uuid).1 refl in
    rw new (lookup-insert uuid uuid ts o.inflight ∙ rw same refl, refl)

-- What is left where both checks pass.
second {ℓ} :
    {A : Type ℓ} (a b : Bool) (x y z : A)
    → a ≡ false
    → b ≡ true
    → (if a then x else if b then y else z) ≡ y
second a b x y z e h = rw (e, h) refl

offered_lem :
    (env : Sending) (frame : Result Bytes) (f uuid : Bytes) (ts : ℕ) (o : Outer)
    → is_terminated o.inner ≡ false
    → client_is_connected env.session_up env.egress_up o.inner ≡ true
    → frame ≡ ok f
    → offered env frame uuid ts o ≡ (remember_outgoing uuid ts o, topic_uuid uuid)
unfolding offer_ingress
offered_lem env frame f uuid ts o runs up built =
    ap (λ (k : Result Bytes). offered env k uuid ts o) built
    ∙ ap (λ (k : Option Bool). after_offer k uuid ts o)
        (ap
            (λ (b : Bool).
              if b then none else some (client_is_connected env.session_up env.egress_up o.inner))
            runs
          ∙ ap (λ (b : Bool). some b) up)

publish_topic_lem :
    (env : Sending) (topic message_type payload headers : Bytes) (o : Outer)
    → is_terminated o.inner ≡ false
    → client_is_connected env.session_up env.egress_up o.inner ≡ true
    → length topic
        + length message_type
        + length payload
        + length (hdrs_of headers)
        + length (str "pub_" ++ to_string env.now)
      ≤ 60000
    → publish_topic env topic message_type payload headers o ≡ (
      remember_outgoing (str "pub_" ++ to_string env.now) env.later o,
      topic_uuid (str "pub_" ++ to_string env.now),
    )
unfolding publish_topic
publish_topic_lem env topic message_type payload headers o runs up fits =
    let uuid = str "pub_" ++ to_string env.now in
    let hdrs = hdrs_of headers in
    second _ _ _ _ _ runs up
    ∙ offered_lem env _ _ uuid env.later o runs up (
        topic_frame_lem env.later (room_for topic message_type uuid payload hdrs) topic message_type
          uuid payload hdrs (omega (arith, fits)) (omega (arith, fits)))

acknowledged :
    (ack : AckInfo) (uuid : Bytes) (o : Outer)
    → ack.ack_message_id ≡ uuid
    → is_empty uuid ≡ false
    → lookup uuid (on_ack_default ack o).inflight ≡ none
unfolding on_ack_default
acknowledged ack uuid o e some_id =
    let self : bytes_eq uuid uuid ≡ true = (bytes_eq_iff uuid uuid).1 refl in
    rw (e, some_id) (lookup-erase uuid uuid o.inflight ∙ rw self refl)

-- With a connected client whose driver runs, five strings of at most 60000 bytes together, and an
-- identifier that is not in flight yet, publish_topic returns `pub_` with the time as the
-- identifier and remembers it with the time of the message; but the client, its session manager and
-- what the publication has taken are what they were: nothing is sent. An acknowledgment with that
-- identifier then removes it.
pub publish_topic_sends_nothing :
    (env : Sending) (topic message_type payload headers : Bytes) (ack : AckInfo) (o : Outer)
    → is_terminated o.inner ≡ false
    → client_is_connected env.session_up env.egress_up o.inner ≡ true
    → length topic
        + length message_type
        + length payload
        + length (hdrs_of headers)
        + length (str "pub_" ++ to_string env.now)
      ≤ 60000
    → lookup (str "pub_" ++ to_string env.now) o.inflight ≡ none
    → ack.ack_message_id ≡ str "pub_" ++ to_string env.now
    → ((publish_topic env topic message_type payload headers o).1
        ≡ topic_uuid (str "pub_" ++ to_string env.now))
      × ((publish_topic env topic message_type payload headers o).0.inner ≡ o.inner)
      × (lookup
            (str "pub_" ++ to_string env.now)
            (publish_topic env topic message_type payload headers o).0.inflight
          ≡ some env.later)
      × (lookup
            (str "pub_" ++ to_string env.now)
            (on_ack_default ack (publish_topic env topic message_type payload headers o).0).inflight
          ≡ none)
publish_topic_sends_nothing env topic message_type payload headers ack o runs up fits new e =
    let uuid = str "pub_" ++ to_string env.now in
    let (there, same) = remembered uuid env.later o new in
    let done = publish_topic_lem env topic message_type payload headers o runs up fits in
    (
      ap (λ (k : Outer × TopicEnding). k.1) done,
      ap (λ (k : Outer × TopicEnding). k.0.inner) done ∙ same,
      ap (λ (k : Outer × TopicEnding). lookup uuid k.0.inflight) done ∙ there,
      acknowledged ack uuid _ e refl,
    )
