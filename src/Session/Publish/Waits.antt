-- ===== src/Session/Publish/Waits.antt =====
-- How long the waits between attempts are.
use aeron_cluster_client_cpp.Prelude.{
  ℕ, ◌+◌, ◌*◌, ◌≤◌, ◌≡◌, Bool, true, not, ◌&&◌, sym, subst, subst₂, arith, ltb, if◌then◌else◌,
}
use aeron_cluster_client_cpp.Prelude.Int.{is_positive}
use aeron_cluster_client_cpp.Session.State.{Config}
use aeron_cluster_client_cpp.Session.Publish.{
  Wait, yields, sleeps, positive_part, wait_before_publish_retry,
}

-- The microseconds that a wait takes.
abbrev pub duration : Wait → ℕ
duration yields = 0
duration (sleeps n) = n

-- The wait with the limit `idle_max`, where there is one.
abbrev limited : Bool → ℕ → ℕ → ℕ
limited has_max idle_max wanted = if has_max && ltb idle_max wanted then idle_max else wanted

duration_lem :
    (off : Bool) (delay : ℕ)
    → duration (if off then yields else if ltb 0 delay then sleeps delay else yields)
      ≡ (if off then 0 else delay)
duration_lem off delay = ground arith

limited-le : (idle_max wanted : ℕ) → limited true idle_max wanted ≤ idle_max
limited-le idle_max wanted = ground arith

limited_mono :
    (has_max : Bool) (idle_max wanted wanted' : ℕ)
    → wanted ≤ wanted'
    → limited has_max idle_max wanted ≤ limited has_max idle_max wanted'
limited_mono has_max idle_max wanted wanted' h = ground arith

if-le : (off : Bool) (a b : ℕ) → a ≤ b → (if off then 0 else a) ≤ b
if-le off a b h = ground arith

if_mono : (off : Bool) (a b : ℕ) → a ≤ b → (if off then 0 else a) ≤ (if off then 0 else b)
if_mono off a b h = ground arith

later_product :
    (base attempt later : ℕ) → attempt ≤ later → base * (attempt + 1) ≤ base * (later + 1)
later_product base attempt later h = grind arith

-- Where the maximum is positive, no wait is longer than it, and a later attempt never waits less than
-- an earlier one.
pub wait_before_publish_retry_bounds :
    (c : Config) (attempt later : ℕ)
    → attempt ≤ later
    → is_positive c.publish_retry_idle_max ≡ true
    → (duration (wait_before_publish_retry c attempt) ≤ positive_part c.publish_retry_idle_max)
      × (duration (wait_before_publish_retry c attempt)
          ≤ duration (wait_before_publish_retry c later))
unfolding wait_before_publish_retry
wait_before_publish_retry_bounds c attempt later h e =
    let has_base = is_positive c.publish_retry_idle_base in
    let has_max = is_positive c.publish_retry_idle_max in
    let off = not has_base && not has_max in
    let idle_max = positive_part c.publish_retry_idle_max in
    let base = if has_base then positive_part c.publish_retry_idle_base else 100 in
    let first = base * (attempt + 1) in
    let second = base * (later + 1) in
    let d = duration_lem off (limited has_max idle_max first) in
    let d' = duration_lem off (limited has_max idle_max second) in
    (
      subst (λ (n : ℕ). n ≤ idle_max) (sym d)
          (if-le off _ idle_max (
            subst (λ (b : Bool). limited b idle_max first ≤ idle_max) (sym e)
              (limited-le idle_max first))),
      subst₂ (λ (m n : ℕ). m ≤ n) (sym d) (sym d')
          (if_mono off _ _
            (limited_mono has_max idle_max first second (later_product base attempt later h))),
    )
