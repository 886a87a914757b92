-- ===== src/Client/State/Repeats.antt =====
-- A message that comes again.
use aeron_cluster_client_cpp.Prelude.{
  ◌<◌, ◌≡◌, refl, ap, ◌∙◌, Bytes, List, ◌∷◌, Bool, true, false, ◌&&◌, ◌||◌, not, is_empty,
  if◌then◌else◌, Option, some, length, bytes_eq_refl,
}
use aeron_cluster_client_cpp.Prelude.Dict.{lookup, lookup-insert}
use aeron_cluster_client_cpp.Json.{JsonLib, Scalar}
use aeron_cluster_client_cpp.Parser.Outcome.{ParseResult, is_session_event}
use aeron_cluster_client_cpp.Commit.{commit_key, commit_message, get_last_commit}
use aeron_cluster_client_cpp.Client.SessionEvents.{receive_session_event}
use aeron_cluster_client_cpp.Client.Topics.{should_skip_auto_commit}
use aeron_cluster_client_cpp.Client.Duplicates.{
  is_message_processed, mark_message_processed, is_message_processed-mark_message_processed,
}
use aeron_cluster_client_cpp.Client.State.{Setup, Client}
use aeron_cluster_client_cpp.Client.State.Sending.{Sending}
use aeron_cluster_client_cpp.Client.State.Incoming.{
  with_session_event, call_message_callback, offset_of, auto_commit, handle_result, finish_message,
  mark_handled,
}
use aeron_cluster_client_cpp.Client.State.Committed.{
  if-client, commit_handled-commits, auto_commit-delivered, auto_commit-processed,
}

no_session_event :
    (result : ParseResult) (c : Client)
    → is_session_event result ≡ false
    → with_session_event result c ≡ c
no_session_event result c e =
    let x = receive_session_event result c.session c.link in
    ap (λ (b : Bool). if b then record c { session = x.0; link = x.1 } else c) e

-- A message with an identifier that is handled, is no session event and is not skipped.
pub record IsCommittable (lib : JsonLib) (result : ParseResult) (c : Client) : Type 0 where
  pub success : result.success ≡ true
  pub no_event : is_session_event result ≡ false
  pub has_id : is_empty result.message_id ≡ false
  pub kept : should_skip_auto_commit lib c.subscribed_topics result ≡ false

module _ (lib : JsonLib) (write_string : List (Bytes × Scalar) → Bytes) (setup : Setup)
    (order : List Bytes → List Bytes) (callback : Option (ParseResult → Bool)) where
  handle_result_lem :
      (env : Sending) (result : ParseResult) (c : Client)
      → IsCommittable lib result c
      → handle_result lib write_string setup order callback env result c
        ≡ finish_message lib write_string setup order callback env
            (is_message_processed result.message_id c.processed)
            false
            true
            result
            c
  unfolding handle_result
  handle_result_lem env result c k =
      let finish = finish_message lib write_string setup order callback env in
      let id = result.message_id in
      let p = is_message_processed id c.processed in
      let skip = should_skip_auto_commit lib c.subscribed_topics result in
      ap
        (λ (c1 : Client).
          if result.success
          then finish (not (is_empty id) && is_message_processed id c1.processed)
              (should_skip_auto_commit lib c1.subscribed_topics result) (not (is_empty id)) result
              c1
          else c)
        (no_session_event result c k.no_event)
      ∙ ap
          (λ (b : Bool).
            if b then finish (not (is_empty id) && p) skip (not (is_empty id)) result c else c)
          k.success
      ∙ ap (λ (b : Bool). finish (not b && p) skip (not b) result c) k.has_id
      ∙ ap (λ (b : Bool). finish p b true result c) k.kept

  -- A new message whose callback succeeds.
  finish_new :
      (env : Sending) (result : ParseResult) (c : Client) (f : ParseResult → Bool)
      → callback ≡ some f
      → f result ≡ true
      → finish_message lib write_string setup order callback env false false true result c
        ≡ auto_commit lib write_string setup order callback env false result
            (record c { delivered = result ∷ c.delivered })
  unfolding finish_message
  finish_new env result c f set good =
      let P = λ (x : Client × Bool).
        (if x.1 && true
          then auto_commit lib write_string setup order callback env false result x.0
          else x.0) in
      ap (λ (g : Option (ParseResult → Bool)). P (call_message_callback g result c)) set
      ∙ ap (λ (b : Bool). P (record c { delivered = result ∷ c.delivered }, b)) good

  first :
      (env : Sending) (result : ParseResult) (c : Client) (f : ParseResult → Bool)
      → callback ≡ some f
      → f result ≡ true
      → IsCommittable lib result c
      → is_message_processed result.message_id c.processed ≡ false
      → handle_result lib write_string setup order callback env result c
        ≡ auto_commit lib write_string setup order callback env false result
            (record c { delivered = result ∷ c.delivered })
  first env result c f set good k new =
      handle_result_lem env result c k
      ∙ ap
          (λ (b : Bool).
            finish_message lib write_string setup order callback env b false true result c)
          new
      ∙ finish_new env result c f set good

  -- A message that is already processed calls no callback.
  finish_old :
      (env : Sending) (skip has_id : Bool) (result : ParseResult) (c : Client)
      → (finish_message lib write_string setup order callback env true skip has_id result
          c).delivered
        ≡ c.delivered
  unfolding finish_message
  finish_old env skip has_id result c =
      if-client (λ (x : Client). x.delivered ≡ c.delivered) (true && (not skip && has_id))
        (auto_commit lib write_string setup order callback env true result c) c
        (λ e. auto_commit-delivered lib write_string setup order callback env true result c)
        (λ e. refl)

  again :
      (env : Sending) (result : ParseResult) (c : Client)
      → is_session_event result ≡ false
      → is_empty result.message_id ≡ false
      → is_message_processed result.message_id c.processed ≡ true
      → (handle_result lib write_string setup order callback env result c).delivered ≡ c.delivered
  unfolding handle_result
  again env result c no_event has_id old =
      let finish = finish_message lib write_string setup order callback env in
      let id = result.message_id in
      let skip = should_skip_auto_commit lib c.subscribed_topics result in
      ap
        (λ (c1 : Client).
          (if result.success
            then finish (not (is_empty id) && is_message_processed id c1.processed)
                (should_skip_auto_commit lib c1.subscribed_topics result) (not (is_empty id)) result
                c1
            else c).delivered)
        (no_session_event result c no_event)
      ∙ ap
          (λ (b : Bool).
            (if result.success
              then finish (not b && is_message_processed id c.processed) skip (not b) result c
              else c).delivered)
          has_id
      ∙ ap (λ (b : Bool). (if result.success then finish b skip true result c else c).delivered) old
      ∙ if-client (λ (x : Client). x.delivered ≡ c.delivered) result.success
          (finish true skip true result c) c (λ e. finish_old env skip true result c) (λ e. refl)

-- A message that comes twice: where the callback succeeds on the first, which has an identifier that is not
-- processed yet, is no session event and not skipped, with automatic commits on and fewer than
-- 1000 identifiers processed, the first calls the callback once and the commit manager then has its
-- offset as the last commit of its topic and message identifier; a later one with the same
-- identifier that is no session event, whatever else it says, does not call the callback.
pub handle_result_twice :
    (lib : JsonLib) (write_string : List (Bytes × Scalar) → Bytes) (setup : Setup)
    (order : List Bytes → List Bytes) (f : ParseResult → Bool) (env env' : Sending)
    (result result' : ParseResult) (c : Client)
    → IsCommittable lib result c
    → is_message_processed result.message_id c.processed ≡ false
    → length c.processed < 1000
    → f result ≡ true
    → setup.enable_auto_commit ≡ true
    → is_session_event result' ≡ false
    → result'.message_id ≡ result.message_id
    → let handle = handle_result lib write_string setup order (some f) in
      let offset = offset_of lib write_string setup order (some f) result c in
      let c1 = handle env result c in
      (c1.delivered ≡ result ∷ c.delivered)
      × (get_last_commit offset.topic offset.message_identifier c1.commits ≡ some offset)
      × ((handle env' result' c1).delivered ≡ c1.delivered)
unfolding auto_commit offset_of mark_handled get_last_commit commit_message
handle_result_twice lib write_string setup order f env env' result result' c k new few good on
      no_event same =
    let c0 = record c { delivered = result ∷ c.delivered } in
    let offset = offset_of lib write_string setup order (some f) result c in
    let e = first lib write_string setup order (some f) env result c f refl good k new in
    let c1 = handle_result lib write_string setup order (some f) env result c in
    let marked = mark_handled lib write_string setup order (some f) false result c0 in
    let kept =
      ap (λ (x : Client). x.commits) e
      ∙ commit_handled-commits lib write_string setup order (some f) env result marked on in
    let processed : c1.processed ≡ mark_message_processed order result.message_id c.processed =
      ap (λ (x : Client). x.processed) e
      ∙ auto_commit-processed lib write_string setup order (some f) env result c0 in
    (
      ap (λ (x : Client). x.delivered) e
          ∙ auto_commit-delivered lib write_string setup order (some f) env false result c0,
      ap (lookup (commit_key offset.topic offset.message_identifier)) kept
          ∙ lookup-insert (commit_key offset.topic offset.message_identifier)
              (commit_key offset.topic offset.message_identifier) offset c.commits
          ∙ ap
              (λ (b : Bool).
                if b
                then some offset
                else lookup (commit_key offset.topic offset.message_identifier) c.commits)
              (bytes_eq_refl (commit_key offset.topic offset.message_identifier)),
      again lib write_string setup order (some f) env' result' c1 no_event
          (ap is_empty same ∙ k.has_id)
          (ap (λ (id : Bytes). is_message_processed id c1.processed) same
            ∙ ap (is_message_processed result.message_id) processed
            ∙ is_message_processed-mark_message_processed order result.message_id result.message_id
                c.processed few
            ∙ ap (λ (b : Bool). b || is_message_processed result.message_id c.processed)
                (bytes_eq_refl result.message_id)),
    )
