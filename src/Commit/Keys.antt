-- ===== src/Commit/Keys.antt =====
-- When the keys `topic:message_identifier` keep commits apart.
use aeron_cluster_client_cpp.Prelude.{
  ◌≡◌, refl, sym, ap₂, ◌≢◌, Bytes, [], ◌∷◌, Bool, true, false, ◌&&◌, bytes_eq, bytes_eq_iff,
}
use aeron_cluster_client_cpp.Commit.{commit_key}

-- No character of the text is a colon.
abbrev pub HasNoColon : Bytes → Type 0
HasNoColon [] = Unit
HasNoColon (c ∷ s) = (c ≢ b':') × HasNoColon s

-- Keys with topics that have no colon determine the topic and the identifier.
pub commit_key_inj :
    (t t' i i' : Bytes)
    → HasNoColon t
    → HasNoColon t'
    → commit_key t i ≡ commit_key t' i'
    → (t ≡ t') × (i ≡ i')
unfolding commit_key
commit_key_inj [] [] i i' n n' e = (refl, cc)
commit_key_inj [] (c ∷ t') i i' n n' e = absurd (n'.0 (cc))
commit_key_inj (c ∷ t) [] i i' n n' e = absurd (n.0 (cc))
commit_key_inj (c ∷ t) (c' ∷ t') i i' n n' e =
    let (te, ie) = commit_key_inj t t' i i' n.1 n'.1 (cc) in (ap₂ ◌∷◌ (cc) te, ie)

-- A text without a colon is no key.
pub ne-commit_key : (s t i : Bytes) → HasNoColon s → s ≢ commit_key t i
unfolding commit_key
ne-commit_key [] [] i n e = cc
ne-commit_key [] (c ∷ t) i n e = cc
ne-commit_key (d ∷ s) [] i n e = n.0 (cc)
ne-commit_key (d ∷ s) (c ∷ t) i n e = ne-commit_key s t i n.1 (cc)

bool_ext : (a b : Bool) → (a ≡ true → b ≡ true) → (b ≡ true → a ≡ true) → a ≡ b
bool_ext true b f g = sym (f refl)
bool_ext false true f g = g refl
bool_ext false false f g = refl

and_intro : (a b : Bool) → a ≡ true → b ≡ true → (a && b) ≡ true
and_intro true b e f = f
and_intro false b e f = e

and_left : (a b : Bool) → (a && b) ≡ true → a ≡ true
and_left true b e = refl
and_left false b e = e

and_right : (a b : Bool) → (a && b) ≡ true → b ≡ true
and_right true b e = e
and_right false b e = cc

-- The comparison of two keys, in terms of their parts.
pub bytes_eq-commit_key :
    (t t' i i' : Bytes)
    → HasNoColon t
    → HasNoColon t'
    → bytes_eq (commit_key t i) (commit_key t' i') ≡ (bytes_eq t t' && bytes_eq i i')
bytes_eq-commit_key t t' i i' n n' =
    bool_ext _ _
      (λ e.
        let parts = commit_key_inj t t' i i' n n' ((bytes_eq_iff _ _).0 e) in
        and_intro _ _ ((bytes_eq_iff t t').1 parts.0) ((bytes_eq_iff i i').1 parts.1))
      (λ e. (bytes_eq_iff _ _).1 (
        ap₂ commit_key ((bytes_eq_iff t t').0 (and_left _ _ e))
          ((bytes_eq_iff i i').0 (and_right (bytes_eq t t') _ e))))
