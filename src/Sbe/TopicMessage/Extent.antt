-- ===== src/Sbe/TopicMessage/Extent.antt =====
-- Where the limit of a message cuts its variable fields.
use aeron_cluster_client_cpp.Prelude.{ℕ, ◌+◌, Bytes, List, [], ◌∷◌, length, leb, if◌then◌else◌}

-- All fields lie within the limit; or the first that does not has its length within the limit, but
-- not all of its data; or not even its length.
pub data Extent : Type 0 where
  whole_fields data_cut length_cut : Extent

-- Of the fields that stand one behind the other from `front` on.
abbrev pub extent : ℕ → ℕ → List Bytes → Extent
extent limit front [] = whole_fields
extent limit front (s ∷ rest) =
    let later = extent limit (front + 2 + length s) rest in
    if leb (front + 2 + length s) limit
    then later
    else if leb (front + 2) limit
    then data_cut
    else length_cut
