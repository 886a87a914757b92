-- ===== src/Commit/Wire/Lengths.antt =====
-- The lengths of the texts in the control messages.
use aeron_cluster_client_cpp.Prelude.{
  ℕ, ◌+◌, ◌≤◌, ◌≡◌, Bytes, [], ◌∷◌, ◌++◌, length, length-append, is_empty, if◌then◌else◌, str,
  arith,
}
use aeron_cluster_client_cpp.Text.{to_string, length-to_string}
use aeron_cluster_client_cpp.Commit.Wire.{
  uuid_of, commit_payload, subscription_payload, unsubscription_payload,
}

pub length-uuid_of :
    (prefix client : Bytes) (later : ℕ)
    → length (uuid_of prefix client later) ≤ 21 + length prefix + length client
length-uuid_of prefix client later = omega (
  arith,
  length-to_string later,
  length-append {0} prefix (client ++ (str "_" ++ to_string later)),
  length-append {0} client (str "_" ++ to_string later),
)

pub length-commit_payload :
    (topic client : Bytes)
    → length (commit_payload topic client) ≡ 45 + length topic + length client
unfolding commit_payload
length-commit_payload topic client = omega (
  arith,
  length-append {0} topic
      (str "\",\"action\":\"COMMIT\",\"client_id\":\"" ++ (client ++ str "\"}")),
  length-append {0} client (str "\"}"),
)

pub length-unsubscription_payload :
    (topic client : Bytes)
    → length (unsubscription_payload topic client) ≡ 50 + length topic + length client
unfolding unsubscription_payload
length-unsubscription_payload topic client = omega (
  arith,
  length-append {0} topic
      (str "\",\"action\":\"UNSUBSCRIBE\",\"client_id\":\"" ++ (client ++ str "\"}")),
  length-append {0} client (str "\"}"),
)

abbrev resume_part : Bytes → Bytes
resume_part r = if is_empty r then [] else str ",\"resumeStrategy\":\"" ++ (r ++ str "\"")

length-resume_part : (r : Bytes) → length (resume_part r) ≤ 20 + length r
length-resume_part [] = omega arith
length-resume_part (x ∷ r) = omega (arith, length-append {0} r (str "\""))

pub length-subscription_payload :
    (topic client r : Bytes)
    → length (subscription_payload topic client r) ≤ 68 + length topic + length client + length r
unfolding subscription_payload
length-subscription_payload topic client r = omega (
  arith,
  length-resume_part r,
  length-append {0} (resume_part r) (str "}"),
  length-append {0} client (str "\"" ++ (resume_part r ++ str "}")),
  length-append {0} topic (
      str "\",\"action\":\"SUBSCRIBE\",\"client_id\":\""
      ++ (client ++ (str "\"" ++ (resume_part r ++ str "}")))),
)
