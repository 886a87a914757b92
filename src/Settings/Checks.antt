-- ===== src/Settings/Checks.antt =====
-- Which settings pass ClusterClientConfig::validate.
use aeron_cluster_client_cpp.Prelude.{
  zero, suc, ◌≡◌, ◌≢◌, refl, sym, ap, subst, ◌∙◌, ◌↔◌, ◌⊎◌, Bytes, List, [], ◌∷◌, Bool, true, false,
  ◌&&◌, ◌||◌, ◌==◌, length, is_empty, arith,
}
use aeron_cluster_client_cpp.Prelude.Int.{ℤ, pos, negsuc, ltb_ℤ, is_positive}
use aeron_cluster_client_cpp.Settings.{
  ClusterClientConfig, ConfigError, no_endpoints, no_response_channel, no_aeron_dir,
  bad_response_timeout, bad_max_retries, bad_keepalive_interval, bad_publish_attempts,
  bad_idle_base, bad_idle_max, idle_max_below_base, negative_stall_timeout,
  warning_above_disconnect, Checked, valid, invalid, unfinished, ◌>>=◌, Network, throw_if, leb_ℤ,
  channel_of, validate_rest, validate_config,
}

-- `a <= b`
infix 50 ◌≤ℤ◌
abbrev pub ◌≤ℤ◌ : ℤ → ℤ → Type 0
a ≤ℤ b = ltb_ℤ b a ≡ false

-- What the checks ask of the settings other than the format of the channel.
pub record IsSound (c : ClusterClientConfig) : Type 0 where
  pub has_endpoint : c.cluster_endpoints ≢ []
  pub has_channel : c.response_channel ≢ []
  pub has_dir : c.aeron_dir ≢ []
  pub response_time : pos 1 ≤ℤ c.response_timeout
  pub retries : pos 0 ≤ℤ c.max_retries
  pub keepalive : pos 1 ≤ℤ c.keepalive_interval
  pub attempts : pos 1 ≤ℤ c.publish_max_retry_attempts
  pub idle_base : pos 0 ≤ℤ c.publish_retry_idle_base
  pub idle_max : pos 0 ≤ℤ c.publish_retry_idle_max
  -- A maximum or a timeout of 0 is none.
  pub idle_order :
      (c.publish_retry_idle_max ≡ pos 0) ⊎ (c.publish_retry_idle_base ≤ℤ c.publish_retry_idle_max)
  pub warning : pos 0 ≤ℤ c.delivery_stall_warning_timeout
  pub disconnect_time : pos 0 ≤ℤ c.delivery_stall_disconnect_timeout
  pub stall_order :
      (c.delivery_stall_disconnect_timeout ≡ pos 0)
      ⊎ (c.delivery_stall_warning_timeout ≤ℤ c.delivery_stall_disconnect_timeout)

-- Checks in turn, in front of the rest.
abbrev guarded {ℓ} : {A : Type ℓ} → List (Bool × ConfigError) → Checked A → Checked A
guarded [] rest = rest
guarded ((test, e) ∷ checks) rest = throw_if test e (guarded checks rest)

abbrev AreFalse : List (Bool × ConfigError) → Type 0
AreFalse [] = Unit
AreFalse ((test, e) ∷ checks) = (test ≡ false) × AreFalse checks

guarded-AreFalse {ℓ} :
    {A : Type ℓ} (checks : List (Bool × ConfigError)) (rest : Checked A) (a : A)
    → guarded checks rest ≡ valid a
    → AreFalse checks × (rest ≡ valid a)
guarded-AreFalse [] rest a h = (tt, h)
guarded-AreFalse ((true, e) ∷ checks) rest a h = cc
guarded-AreFalse ((false, e) ∷ checks) rest a h =
    let (falses, left) = guarded-AreFalse checks rest a h in ((refl, falses), left)

AreFalse-guarded {ℓ} :
    {A : Type ℓ} (checks : List (Bool × ConfigError)) (rest : Checked A)
    → AreFalse checks
    → guarded checks rest ≡ rest
AreFalse-guarded [] rest h = refl
AreFalse-guarded ((true, e) ∷ checks) rest h = cc (h.0)
AreFalse-guarded ((false, e) ∷ checks) rest h = AreFalse-guarded checks rest h.1

less_than_one : (a : ℤ) → (leb_ℤ a (pos 0) ≡ false) ↔ (pos 1 ≤ℤ a)
less_than_one (pos n) = ground arith
less_than_one (negsuc n) = ground arith

-- A maximum that is not negative, and what must not lie above it.
bounded_by :
    (a b : ℤ) → pos 0 ≤ℤ b → ((is_positive b && ltb_ℤ b a) ≡ false) ↔ ((b ≡ pos 0) ⊎ (a ≤ℤ b))
bounded_by a (pos zero) h = ground arith
bounded_by a (pos (suc n)) h = ground arith
bounded_by a (negsuc n) h = cc

stalls :
    (a b : ℤ)
    → pos 0 ≤ℤ a
    → pos 0 ≤ℤ b
    → ((is_positive a && is_positive b && ltb_ℤ b a) ≡ false) ↔ ((b ≡ pos 0) ⊎ (a ≤ℤ b))
stalls (pos a) (pos b) h k = ground arith
stalls (negsuc a) b h k = cc
stalls (pos a) (negsuc b) h k = cc

-- The ten checks behind the channel.
late_checks : ClusterClientConfig → List (Bool × ConfigError)
late_checks c =
    let idle_base = c.publish_retry_idle_base in
    let idle_max = c.publish_retry_idle_max in
    let warning = c.delivery_stall_warning_timeout in
    let disconnect = c.delivery_stall_disconnect_timeout in
    (is_empty c.aeron_dir, no_aeron_dir)
    ∷ (leb_ℤ c.response_timeout (pos 0), bad_response_timeout)
    ∷ (ltb_ℤ c.max_retries (pos 0), bad_max_retries)
    ∷ (leb_ℤ c.keepalive_interval (pos 0), bad_keepalive_interval)
    ∷ (ltb_ℤ c.publish_max_retry_attempts (pos 1), bad_publish_attempts)
    ∷ (ltb_ℤ idle_base (pos 0), bad_idle_base)
    ∷ (ltb_ℤ idle_max (pos 0), bad_idle_max)
    ∷ (is_positive idle_max && ltb_ℤ idle_max idle_base, idle_max_below_base)
    ∷ (ltb_ℤ warning (pos 0) || ltb_ℤ disconnect (pos 0), negative_stall_timeout)
    ∷ (
      is_positive warning && is_positive disconnect && ltb_ℤ disconnect warning,
      warning_above_disconnect,
    )
    ∷ []

early_checks : ClusterClientConfig → List (Bool × ConfigError)
early_checks c =
    (length c.cluster_endpoints == 0, no_endpoints)
    ∷ (is_empty c.response_channel, no_response_channel)
    ∷ []

neither : (a b : Bool) → ((a || b) ≡ false) ↔ ((a ≡ false) × (b ≡ false))
neither true b = ground arith
neither false b = ground arith

is_empty_iff : (b : Bytes) → (is_empty b ≡ false) ↔ (b ≢ [])
is_empty_iff b = ground arith

none_iff : (l : List Bytes) → ((length l == 0) ≡ false) ↔ (l ≢ [])
none_iff [] = ground arith
none_iff (b ∷ l) = ground arith

checks-IsSound :
    (c : ClusterClientConfig) → AreFalse (early_checks c) → AreFalse (late_checks c) → IsSound c
unfolding early_checks late_checks
checks-IsSound c (a, (b, t)) (d, (e, (f, (g, (h, (i, (j, (k, (l, (m, u)))))))))) =
    let (warns, cuts) =
      (neither (ltb_ℤ c.delivery_stall_warning_timeout (pos 0))
          (ltb_ℤ c.delivery_stall_disconnect_timeout (pos 0))).0
        l in
    record {
      has_endpoint = (none_iff c.cluster_endpoints).0 a;
      has_channel = (is_empty_iff c.response_channel).0 b;
      has_dir = (is_empty_iff c.aeron_dir).0 d;
      response_time = (less_than_one c.response_timeout).0 e;
      retries = f;
      keepalive = (less_than_one c.keepalive_interval).0 g;
      attempts = h;
      idle_base = i;
      idle_max = j;
      idle_order = (bounded_by c.publish_retry_idle_base c.publish_retry_idle_max j).0 k;
      warning = warns;
      disconnect_time = cuts;
      stall_order =
          (stalls c.delivery_stall_warning_timeout c.delivery_stall_disconnect_timeout warns cuts).0
            m;
    }

IsSound-checks :
    (c : ClusterClientConfig) → IsSound c → AreFalse (early_checks c) × AreFalse (late_checks c)
unfolding early_checks late_checks
IsSound-checks c s = (
  (
    (none_iff c.cluster_endpoints).1 s.has_endpoint,
    ((is_empty_iff c.response_channel).1 s.has_channel, tt),
  ),
  (
    (is_empty_iff c.aeron_dir).1 s.has_dir,
    (
      (less_than_one c.response_timeout).1 s.response_time,
      (
        s.retries,
        (
          (less_than_one c.keepalive_interval).1 s.keepalive,
          (
            s.attempts,
            (
              s.idle_base,
              (
                s.idle_max,
                (
                  (bounded_by c.publish_retry_idle_base c.publish_retry_idle_max s.idle_max).1
                      s.idle_order,
                  (
                    (neither (ltb_ℤ c.delivery_stall_warning_timeout (pos 0))
                          (ltb_ℤ c.delivery_stall_disconnect_timeout (pos 0))).1
                        (s.warning, s.disconnect_time),
                    (
                      (stalls c.delivery_stall_warning_timeout c.delivery_stall_disconnect_timeout
                            s.warning s.disconnect_time).1
                          s.stall_order,
                      tt,
                    ),
                  ),
                ),
              ),
            ),
          ),
        ),
      ),
    ),
  ),
)

validate_config-guarded :
    (net : Network) (c : ClusterClientConfig)
    → validate_config net c
      ≡ guarded (early_checks c) (
          channel_of net c >>= (λ channel. validate_rest (record c { response_channel = channel })))
unfolding validate_config early_checks
validate_config-guarded net c = refl

validate_rest-guarded :
    (c : ClusterClientConfig) → validate_rest c ≡ guarded (late_checks c) (valid c)
unfolding validate_rest late_checks
validate_rest-guarded c = refl

bound_valid {ℓ κ} :
    {A : Type ℓ} {B : Type κ} (m : Checked A) (f : A → Checked B) (b : B)
    → (m >>= f) ≡ valid b
    → (a : A) × ((m ≡ valid a) × (f a ≡ valid b))
bound_valid (valid a) f b h = (a, (refl, h))
bound_valid (invalid e) f b h = cc
bound_valid unfinished f b h = cc

valid_inj {ℓ} : {A : Type ℓ} (a b : A) → valid a ≡ valid b → a ≡ b
valid_inj a b h = cc

-- The late checks do not look at the channel.
late_checks-channel :
    (c : ClusterClientConfig) (channel : Bytes)
    → late_checks (record c { response_channel = channel }) ≡ late_checks c
unfolding late_checks
late_checks-channel c channel = refl

validate_config_accepts :
    (net : Network) (c d : ClusterClientConfig)
    → validate_config net c ≡ valid d
    → IsSound c
      × ((channel_of net c ≡ valid d.response_channel)
          × (d ≡ record c { response_channel = d.response_channel }))
validate_config_accepts net c d h =
    let (early, left) =
      guarded-AreFalse (early_checks c) _ d (sym (validate_config-guarded net c) ∙ h) in
    let (channel, (resolved, rest)) = bound_valid (channel_of net c) _ d left in
    let c' : ClusterClientConfig = record c { response_channel = channel } in
    let (late, same) =
      guarded-AreFalse (late_checks c') (valid c') d (sym (validate_rest-guarded c') ∙ rest) in
    let e : c' ≡ d = valid_inj c' d same in
    let f : channel ≡ d.response_channel = ap (λ (k : ClusterClientConfig). k.response_channel) e in
    (
      checks-IsSound c early (subst AreFalse (late_checks-channel c channel) late),
      (
        resolved ∙ ap (λ (k : Bytes). valid k) f,
        sym e ∙ ap (λ (k : Bytes). record c { response_channel = k }) f,
      ),
    )

validate_config_returns :
    (net : Network) (c d : ClusterClientConfig)
    → IsSound c
    → channel_of net c ≡ valid d.response_channel
    → d ≡ record c { response_channel = d.response_channel }
    → validate_config net c ≡ valid d
validate_config_returns net c d s resolved e =
    let (early, late) = IsSound-checks c s in
    let c' : ClusterClientConfig = record c { response_channel = d.response_channel } in
    validate_config-guarded net c
    ∙ AreFalse-guarded (early_checks c) _ early
    ∙ ap
        (λ (m : Checked Bytes).
          m >>= (λ channel. validate_rest (record c { response_channel = channel })))
        resolved
    ∙ validate_rest-guarded c'
    ∙ AreFalse-guarded (late_checks c') (valid c')
        (subst AreFalse (sym (late_checks-channel c d.response_channel)) late)
    ∙ ap (λ (k : ClusterClientConfig). valid k) (sym e)

-- ClusterClientConfig::validate accepts settings, with `d` as the result, exactly if they are sound
-- (there are an endpoint, a channel and a directory; the counts and the durations are not
-- negative, or positive where they must be; a maximum is not below its base, nor a disconnect
-- timeout below the warning, unless it is 0), the channel resolves where it has the port 0, and `d`
-- has that channel and is the same otherwise.
pub validate_config-IsSound :
    (net : Network) (c d : ClusterClientConfig)
    → (validate_config net c ≡ valid d) ↔ (
        IsSound c
        × ((channel_of net c ≡ valid d.response_channel)
            × (d ≡ record c { response_channel = d.response_channel })))
validate_config-IsSound net c d =
    (validate_config_accepts net c d, (λ h. validate_config_returns net c d h.0 h.1.0 h.1.1))
