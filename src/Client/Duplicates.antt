-- ===== src/Client/Duplicates.antt =====
-- The identifiers of processed messages: is_message_processed and mark_message_processed of
-- ClusterClient::Impl.
use aeron_cluster_client_cpp.Prelude.{
  ℕ, ◌-◌, ◌≤◌, ◌<◌, ◌≡◌, refl, Bytes, List, [], ◌∷◌, Bool, ◌||◌, length, drop, length-drop, ltb,
  bytes_eq, if◌then◌else◌, arith,
}
use aeron_cluster_client_cpp.Prelude.Dict.{member, add, member-add, length-add}

unfoldable pub is_message_processed : Bytes → List Bytes → Bool
unfolding member
is_message_processed message_id processed = member message_id processed

-- `order` is the order in which the container is walked through.
unfoldable pub mark_message_processed : (List Bytes → List Bytes) → Bytes → List Bytes → List Bytes
unfolding add
mark_message_processed order message_id processed =
    let marked = add message_id processed in
    if ltb 1000 (length marked) then drop 100 (order marked) else marked

unfoldable pub mark_all : (List Bytes → List Bytes) → List Bytes → List Bytes → List Bytes
unfolding mark_message_processed
mark_all order [] processed = processed
mark_all order (m ∷ messages) processed =
    mark_all order messages (mark_message_processed order m processed)

at_most :
    (s dropped : List Bytes) (n : ℕ)
    → n ≡ length s
    → n ≤ 1001
    → length dropped ≡ n - 100
    → length (if ltb 1000 n then dropped else s) ≤ 1000
at_most s dropped n e h d = ground arith

mark_message_processed_fits :
    (order : List Bytes → List Bytes) (m : Bytes) (processed : List Bytes)
    → ((s : List Bytes) → length (order s) ≡ length s)
    → length processed ≤ 1000
    → length (mark_message_processed order m processed) ≤ 1000
unfolding mark_message_processed
mark_message_processed_fits order m processed keeps h =
    let s = add m processed in
    at_most s (drop 100 (order s)) (length s) refl (omega (arith, length-add m processed))
      (omega (arith, keeps s, length-drop {0} 100 (order s)))

-- However many messages are marked, and in whatever order the container is walked through, at most
-- 1000 identifiers are kept.
pub mark_all_bounded :
    (order : List Bytes → List Bytes) (messages processed : List Bytes)
    → ((s : List Bytes) → length (order s) ≡ length s)
    → length processed ≤ 1000
    → length (mark_all order messages processed) ≤ 1000
unfolding mark_all
mark_all_bounded order [] processed keeps h = h
mark_all_bounded order (m ∷ messages) processed keeps h =
    mark_all_bounded order messages (mark_message_processed order m processed) keeps
      (mark_message_processed_fits order m processed keeps h)

-- Below the limit a marked message is processed, and no other one is forgotten.
pub is_message_processed-mark_message_processed :
    (order : List Bytes → List Bytes) (m k : Bytes) (processed : List Bytes)
    → length processed < 1000
    → is_message_processed k (mark_message_processed order m processed)
      ≡ (bytes_eq m k || is_message_processed k processed)
unfolding is_message_processed mark_message_processed
is_message_processed-mark_message_processed order m k processed h =
    ground (arith, length-add m processed, member-add m k processed)
