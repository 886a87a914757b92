-- ===== src/Settings.antt =====
-- src/config.cpp and the builder at the end of src/cluster_client.cpp: the settings of the client and
-- their checks. The regular expression of the endpoint, `std::stoi` and the operating system are
-- parameters; durations are their counts.
pub mod Ports
pub mod Checks
use aeron_cluster_client_cpp.Prelude.{
  ℕ, zero, suc, Bytes, List, [], ◌∷◌, ◌++◌, length, ◌==◌, Bool, true, false, not, ◌&&◌, ◌||◌,
  is_empty, str, if◌then◌else◌, Option, none, some,
}
use aeron_cluster_client_cpp.Prelude.Int.{ℤ, pos, ltb_ℤ, eq_ℤ, is_positive}
use aeron_cluster_client_cpp.Text.{contains, to_string}
use aeron_cluster_client_cpp.Settings.Ports.{
  PortDraw, Search, port_found, none_available, drawing, find_available_port,
}

-- The settings that the checks and the builder work on.
pub record ClusterClientConfig : Type 0 where
  pub cluster_endpoints : List Bytes
  pub client_id : Bytes
  pub response_channel : Bytes
  pub aeron_dir : Bytes
  pub response_timeout : ℤ
  pub retry_delay : ℤ
  pub max_retries : ℤ
  pub application_name : Bytes
  pub default_topic : Bytes
  pub enable_keepalive : Bool
  pub keepalive_interval : ℤ
  pub publish_max_retry_attempts : ℤ
  pub publish_retry_idle_base : ℤ
  pub publish_retry_idle_max : ℤ
  pub publish_rate_limit_delay : ℤ
  pub debug_logging : Bool
  pub commit_log_enabled : Bool
  pub enable_auto_commit : Bool
  pub delivery_stall_warning_timeout : ℤ
  pub delivery_stall_disconnect_timeout : ℤ

pub data ConfigError : Type 0 where
  no_endpoints no_response_channel no_aeron_dir bad_response_timeout : ConfigError
  bad_max_retries bad_keepalive_interval bad_publish_attempts : ConfigError
  bad_idle_base bad_idle_max idle_max_below_base : ConfigError
  negative_stall_timeout warning_above_disconnect : ConfigError
  bad_channel_format port_out_of_range no_available_port : ConfigError

-- `unfinished` stands for a search for a port that still draws.
pub data Checked {ℓ} (A : Type ℓ) : Type ℓ where
  valid : A → Checked A
  invalid : ConfigError → Checked A
  unfinished : Checked A

infixl 5 ◌>>=◌
abbrev pub ◌>>=◌ {ℓ κ} : {A : Type ℓ} {B : Type κ} → Checked A → (A → Checked B) → Checked B
valid a >>= f = f a
invalid e >>= f = invalid e
unfinished >>= f = unfinished

pub record Network : Type 0 where
  -- The two groups of the first match of `endpoint=([a-zA-Z0-9\.\-]+):(\d+)`.
  pub regex_search : Bytes → Option (Bytes × Bytes)
  pub regex_replace : Bytes → Bytes → Bytes
  -- `std::stoi` of digits; `none` is std::out_of_range.
  pub stoi : Bytes → Option ℕ
  pub local_ip : Bytes
  -- The random ports in turn, with what the system answers.
  pub draws : List PortDraw

unfoldable pub needs_port_resolution : Bytes → Bool
unfolding contains
needs_port_resolution channel =
    contains channel (str "endpoint=localhost:0")
    || contains channel (str "endpoint=0.0.0.0:0")
    || contains channel (str ":0")

abbrev pub with_port : Network → Bytes → Bytes → Search → Checked Bytes
with_port net base_channel host (port_found new_port) =
    let resolved_host = if is_empty net.local_ip then host else net.local_ip in
    valid (
      net.regex_replace base_channel
        (str "endpoint=" ++ (resolved_host ++ (str ":" ++ to_string new_port))))
with_port net base_channel host none_available = invalid no_available_port
with_port net base_channel host drawing = unfinished

-- `new_port` is only looked for where the channel's port is 0.
abbrev pub resolve_port : Network → Bytes → Bytes → Option ℕ → Checked Bytes
resolve_port net base_channel host none = invalid port_out_of_range
resolve_port net base_channel host (some zero) =
    with_port net base_channel host (find_available_port 40000 59000 net.draws)
resolve_port net base_channel host (some (suc port)) = valid base_channel

abbrev pub resolve_match : Network → Bytes → Option (Bytes × Bytes) → Checked Bytes
resolve_match net base_channel none = invalid bad_channel_format
resolve_match net base_channel (some (host, port_str)) =
    resolve_port net base_channel host (net.stoi port_str)

unfoldable pub resolve_egress_endpoint : Network → Bytes → Checked Bytes
unfolding find_available_port
resolve_egress_endpoint net base_channel =
    resolve_match net base_channel (net.regex_search base_channel)

-- `if (test) throw error;`, in front of the rest.
abbrev pub throw_if {ℓ} : {A : Type ℓ} → Bool → ConfigError → Checked A → Checked A
throw_if test e rest = if test then invalid e else rest

abbrev pub leb_ℤ : ℤ → ℤ → Bool
leb_ℤ a b = not (ltb_ℤ b a)

abbrev pub channel_of : Network → ClusterClientConfig → Checked Bytes
channel_of net c =
    let resolved = resolve_egress_endpoint net c.response_channel in
    if needs_port_resolution c.response_channel then resolved else valid c.response_channel

-- The checks behind the resolution of the channel.
unfoldable pub validate_rest : ClusterClientConfig → Checked ClusterClientConfig
validate_rest c =
    let idle_base = c.publish_retry_idle_base in
    let idle_max = c.publish_retry_idle_max in
    let warning = c.delivery_stall_warning_timeout in
    let disconnect = c.delivery_stall_disconnect_timeout in
    throw_if (is_empty c.aeron_dir) no_aeron_dir (
      throw_if (leb_ℤ c.response_timeout (pos 0)) bad_response_timeout (
        throw_if (ltb_ℤ c.max_retries (pos 0)) bad_max_retries (
          throw_if (leb_ℤ c.keepalive_interval (pos 0)) bad_keepalive_interval (
            throw_if (ltb_ℤ c.publish_max_retry_attempts (pos 1)) bad_publish_attempts (
              throw_if (ltb_ℤ idle_base (pos 0)) bad_idle_base (
                throw_if (ltb_ℤ idle_max (pos 0)) bad_idle_max (
                  throw_if (is_positive idle_max && ltb_ℤ idle_max idle_base) idle_max_below_base (
                    throw_if (ltb_ℤ warning (pos 0) || ltb_ℤ disconnect (pos 0))
                      negative_stall_timeout
                      (throw_if
                        (is_positive warning && is_positive disconnect && ltb_ℤ disconnect warning)
                        warning_above_disconnect (valid c))))))))))

unfoldable pub validate_config : Network → ClusterClientConfig → Checked ClusterClientConfig
unfolding needs_port_resolution resolve_egress_endpoint validate_rest
validate_config net c = throw_if (length c.cluster_endpoints == 0) no_endpoints (
    throw_if (is_empty c.response_channel) no_response_channel
      (channel_of net c >>= (λ channel. validate_rest (record c { response_channel = channel }))))

-- The members of the builder that set something; the others of the configuration have no setter.
pub data Setting : Type 0 where
  with_cluster_endpoints : List Bytes → Setting
  with_response_channel with_aeron_dir with_application_name : Bytes → Setting
  with_default_topic with_client_id : Bytes → Setting
  with_response_timeout with_max_retries with_retry_delay with_keepalive_interval : ℤ → Setting
  with_keepalive_enabled with_debug_logging with_commit_logging with_auto_commit : Bool → Setting
  with_publish_retry_attempts with_publish_rate_limit_delay : ℤ → Setting
  with_publish_retry_backoff : ℤ → ℤ → Setting

unfoldable pub apply_setting : Setting → ClusterClientConfig → ClusterClientConfig
apply_setting (with_cluster_endpoints x) c = record c { cluster_endpoints = x }
apply_setting (with_response_channel x) c = record c { response_channel = x }
apply_setting (with_aeron_dir x) c = record c { aeron_dir = x }
apply_setting (with_application_name x) c = record c { application_name = x }
apply_setting (with_default_topic x) c = record c { default_topic = x }
apply_setting (with_client_id x) c = record c { client_id = x }
apply_setting (with_response_timeout x) c = record c { response_timeout = x }
apply_setting (with_max_retries x) c = record c { max_retries = x }
apply_setting (with_retry_delay x) c = record c { retry_delay = x }
apply_setting (with_keepalive_interval x) c = record c { keepalive_interval = x }
apply_setting (with_keepalive_enabled x) c = record c { enable_keepalive = x }
apply_setting (with_debug_logging x) c = record c { debug_logging = x }
apply_setting (with_commit_logging x) c = record c { commit_log_enabled = x }
apply_setting (with_auto_commit x) c = record c { enable_auto_commit = x }
apply_setting (with_publish_retry_attempts x) c = record c { publish_max_retry_attempts = x }
apply_setting (with_publish_rate_limit_delay x) c = record c { publish_rate_limit_delay = x }
apply_setting (with_publish_retry_backoff x y) c = record c {
  publish_retry_idle_base = x;
  publish_retry_idle_max = y;
}

abbrev pub default_config : ClusterClientConfig
default_config = record {
  cluster_endpoints = str "localhost:9002" ∷ str "localhost:9102" ∷ str "localhost:9202" ∷ [];
  client_id = str "cpp_client";
  response_channel = str "aeron:udp?endpoint=localhost:0";
  aeron_dir = str "/dev/shm/aeron";
  response_timeout = pos 10000;
  retry_delay = pos 500;
  max_retries = pos 3;
  application_name = str "aeron-cluster-cpp";
  default_topic = str "orders";
  enable_keepalive = true;
  keepalive_interval = pos 1000;
  publish_max_retry_attempts = pos 50;
  publish_retry_idle_base = pos 500;
  publish_retry_idle_max = pos 5000;
  publish_rate_limit_delay = pos 0;
  debug_logging = false;
  commit_log_enabled = false;
  enable_auto_commit = true;
  delivery_stall_warning_timeout = pos 5000;
  delivery_stall_disconnect_timeout = pos 15000;
}

abbrev pub configure : List Setting → ClusterClientConfig → ClusterClientConfig
configure [] c = c
configure (s ∷ settings) c = configure settings (apply_setting s c)

-- A new builder, its setters in turn, and `build`.
unfoldable pub build : Network → List Setting → Checked ClusterClientConfig
unfolding apply_setting validate_config
build net settings = validate_config net (configure settings default_config)
