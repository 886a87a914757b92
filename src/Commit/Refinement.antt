-- ===== src/Commit/Refinement.antt =====
-- The commit map against a function from topics and identifiers to commits.
use aeron_cluster_client_cpp.Prelude.{
  ◌≡◌, refl, ap, ◌∙◌, Bytes, List, [], ◌∷◌, Bool, true, false, ◌&&◌, bytes_eq, bytes_eq_iff, Option,
  none, some, if◌then◌else◌,
}
use aeron_cluster_client_cpp.Prelude.Dict.{lookup, lookup-insert, lookup-erase}
use aeron_cluster_client_cpp.Commit.{
  CommitOffset, Commits, commit_key, commit_message, get_last_commit, clear_commits,
  clear_all_commits,
}
use aeron_cluster_client_cpp.Commit.Keys.{HasNoColon, ne-commit_key, bytes_eq-commit_key}

-- The calls that change the map.
pub data Op : Type 0 where
  commit : CommitOffset → Op
  clear : Bytes → Op
  clear_all : Op

unfoldable pub run : List Op → Commits → Commits
unfolding commit_message clear_commits clear_all_commits
run [] m = m
run (commit o ∷ ops) m = run ops (commit_message o m)
run (clear topic ∷ ops) m = run ops (clear_commits topic m)
run (clear_all ∷ ops) m = run ops (clear_all_commits m)

-- What a user sees: for each topic and identifier, the last commit, if any.
abbrev pub View : Type 0
View = Bytes → Bytes → Option CommitOffset

-- The same calls on a view. To clear one topic changes nothing.
unfoldable pub replay : List Op → View → View
replay [] f = f
replay (commit o ∷ ops) f =
    replay ops
      (λ t i. if bytes_eq o.topic t && bytes_eq o.message_identifier i then some o else f t i)
replay (clear topic ∷ ops) f = replay ops f
replay (clear_all ∷ ops) f = replay ops (λ t i. none)

-- The topics of the calls have no colon.
abbrev pub TopicsOk : List Op → Type 0
TopicsOk [] = Unit
TopicsOk (commit o ∷ ops) = HasNoColon o.topic × TopicsOk ops
TopicsOk (clear topic ∷ ops) = HasNoColon topic × TopicsOk ops
TopicsOk (clear_all ∷ ops) = TopicsOk ops

-- A map and a view that agree where the topic has no colon.
abbrev pub Shows : Commits → View → Type 0
Shows m f = (t i : Bytes) → HasNoColon t → get_last_commit t i m ≡ f t i

get_last_commit-commit_message :
    (o : CommitOffset) (t i : Bytes) (m : Commits)
    → HasNoColon o.topic
    → HasNoColon t
    → get_last_commit t i (commit_message o m) ≡ (
        if bytes_eq o.topic t && bytes_eq o.message_identifier i
        then some o
        else get_last_commit t i m)
unfolding get_last_commit commit_message
get_last_commit-commit_message o t i m n n' =
    lookup-insert (commit_key o.topic o.message_identifier) (commit_key t i) o m
    ∙ ap (λ (b : Bool). if b then some o else lookup (commit_key t i) m)
        (bytes_eq-commit_key o.topic t o.message_identifier i n n')

-- For a topic without a colon, `clear_commits` leaves every last commit as it is: the key that it
-- erases is the topic alone, and no commit is stored under such a key.
pub get_last_commit-clear_commits :
    (topic t i : Bytes) (m : Commits)
    → HasNoColon topic
    → get_last_commit t i (clear_commits topic m) ≡ get_last_commit t i m
unfolding get_last_commit clear_commits
get_last_commit-clear_commits topic t i m n =
    lookup-erase topic (commit_key t i) m
    ∙ ap (λ (b : Bool). if b then none else lookup (commit_key t i) m)
        (other (bytes_eq topic (commit_key t i)) refl)
  where
    other :
        (b : Bool) → bytes_eq topic (commit_key t i) ≡ b → bytes_eq topic (commit_key t i) ≡ false
    other true e = absurd (ne-commit_key topic t i n ((bytes_eq_iff _ _).0 e))
    other false e = e

get_last_commit-nil : (t i : Bytes) → get_last_commit t i [] ≡ none
unfolding get_last_commit
get_last_commit-nil t i = refl

-- The map shows what the same calls make of the view.
run-Shows :
    (ops : List Op) (m : Commits) (f : View)
    → TopicsOk ops
    → Shows m f
    → Shows (run ops m) (replay ops f)
unfolding run replay
run-Shows [] m f k shows t i n = shows t i n
run-Shows (commit o ∷ ops) m f k shows t i n =
    run-Shows ops (commit_message o m) _ k.1
      (λ t' i' n'.
        get_last_commit-commit_message o t' i' m k.0 n'
        ∙ ap
            (λ (old : Option CommitOffset).
              if bytes_eq o.topic t' && bytes_eq o.message_identifier i' then some o else old)
            (shows t' i' n'))
      t i n
run-Shows (clear topic ∷ ops) m f k shows t i n =
    run-Shows ops (clear_commits topic m) f k.1
      (λ t' i' n'. get_last_commit-clear_commits topic t' i' m k.0 ∙ shows t' i' n') t i n
run-Shows (clear_all ∷ ops) m f k shows t i n =
    run-Shows ops [] (λ t' i'. none) k (λ t' i' n'. get_last_commit-nil t' i') t i n

-- From the empty map, after any sequence of calls whose topics have no colon, get_last_commit gives
-- for a topic without a colon and an identifier exactly the latest commit of that topic and that
-- identifier since the last clear_all_commits, whatever clear_commits was called with.
pub run_refines :
    (ops : List Op) (t i : Bytes)
    → TopicsOk ops
    → HasNoColon t
    → get_last_commit t i (run ops []) ≡ replay ops (λ t' i'. none) t i
run_refines ops t i k n =
    run-Shows ops [] (λ t' i'. none) k (λ t' i' n'. get_last_commit-nil t' i') t i n
