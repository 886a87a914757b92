-- ===== src/Client/State/Committed.antt =====
-- What the commit of a handled message changes.
use aeron_cluster_client_cpp.Prelude.{
  ◌≡◌, refl, ◌∙◌, Bytes, List, Bool, true, false, if◌then◌else◌, Option,
}
use aeron_cluster_client_cpp.Json.{JsonLib, Scalar}
use aeron_cluster_client_cpp.Parser.Outcome.{ParseResult}
use aeron_cluster_client_cpp.Commit.{commit_message}
use aeron_cluster_client_cpp.Client.Duplicates.{mark_message_processed}
use aeron_cluster_client_cpp.Client.State.{Setup, Client}
use aeron_cluster_client_cpp.Client.State.Sending.{Sending, client_commit_message}
use aeron_cluster_client_cpp.Client.State.Spares.{client_commit_message_lem}
use aeron_cluster_client_cpp.Client.State.Incoming.{
  reported, offset_of, auto_commit, mark_handled, commit_handled,
}

-- Either branch of a test, by the test's value.
pub if-client :
    (P : Client → Type 0) (b : Bool) (x y : Client)
    → (b ≡ true → P x)
    → (b ≡ false → P y)
    → P (if b then x else y)
if-client P true x y p q = p refl
if-client P false x y p q = q refl

module _ (lib : JsonLib) (write_string : List (Bytes × Scalar) → Bytes) (setup : Setup)
    (order : List Bytes → List Bytes) (callback : Option (ParseResult → Bool)) where
  pub commit_handled-delivered :
      (env : Sending) (result : ParseResult) (c : Client)
      → (commit_handled lib write_string setup order callback env result c).delivered ≡ c.delivered
  unfolding commit_handled
  commit_handled-delivered env result c =
      let offset = offset_of lib write_string setup order callback result c in
      if-client (λ (x : Client). x.delivered ≡ c.delivered) setup.enable_auto_commit
        (reported (client_commit_message write_string setup env offset c)) c
        (λ e. (client_commit_message_lem write_string setup env offset c).delivered) (λ e. refl)

  pub commit_handled-processed :
      (env : Sending) (result : ParseResult) (c : Client)
      → (commit_handled lib write_string setup order callback env result c).processed ≡ c.processed
  unfolding commit_handled
  commit_handled-processed env result c =
      let offset = offset_of lib write_string setup order callback result c in
      if-client (λ (x : Client). x.processed ≡ c.processed) setup.enable_auto_commit
        (reported (client_commit_message write_string setup env offset c)) c
        (λ e. (client_commit_message_lem write_string setup env offset c).processed) (λ e. refl)

  pub commit_handled-commits :
      (env : Sending) (result : ParseResult) (c : Client)
      → setup.enable_auto_commit ≡ true
      → (commit_handled lib write_string setup order callback env result c).commits
        ≡ commit_message (offset_of lib write_string setup order callback result c) c.commits
  unfolding commit_handled
  commit_handled-commits env result c on =
      let offset = offset_of lib write_string setup order callback result c in
      if-client (λ (x : Client). x.commits ≡ commit_message offset c.commits)
        setup.enable_auto_commit (reported (client_commit_message write_string setup env offset c))
        c (λ e. (client_commit_message_lem write_string setup env offset c).commits)
        (λ e. cc (e, on))

  pub mark_handled-delivered :
      (already : Bool) (result : ParseResult) (c : Client)
      → (mark_handled lib write_string setup order callback already result c).delivered
        ≡ c.delivered
  unfolding mark_handled
  mark_handled-delivered true result c = refl
  mark_handled-delivered false result c = refl

  pub auto_commit-delivered :
      (env : Sending) (already : Bool) (result : ParseResult) (c : Client)
      → (auto_commit lib write_string setup order callback env already result c).delivered
        ≡ c.delivered
  unfolding auto_commit
  auto_commit-delivered env already result c =
      commit_handled-delivered env result
        (mark_handled lib write_string setup order callback already result c)
      ∙ mark_handled-delivered already result c

  pub auto_commit-processed :
      (env : Sending) (result : ParseResult) (c : Client)
      → (auto_commit lib write_string setup order callback env false result c).processed
        ≡ mark_message_processed order result.message_id c.processed
  unfolding auto_commit mark_handled
  auto_commit-processed env result c =
      commit_handled-processed env result
        (mark_handled lib write_string setup order callback false result c)
