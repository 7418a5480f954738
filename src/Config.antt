-- ===== src/Config.antt =====
-- The configuration of crates/ferrovela-lib/src/config.rs: its records, their defaults, and the
-- address that the proxy binds to. A `u16` is a number up to `max_u16`.
pub mod Exceptions
pub mod Matching
pub mod Prefs
pub mod RoundTrip
pub mod Managed
pub mod Tests
use ferro_vela.Prelude.{ℕ, Bool, true, false, List, Option, none, some, if◌then◌else◌, map_option}
use ferro_vela.Text.{Str, codes}

pub record ProxyConfig : Type 0 where
  pub port : ℕ
  pub pac_file : Option Str
  pub allow_private_ips : Bool
  pub listen_ip : Str

pub record UpstreamConfig : Type 0 where
  pub auth_type : Str
  pub username : Option Str
  pub password : Option Str
  pub use_keyring : Bool
  pub domain : Option Str
  pub workstation : Option Str
  pub proxy_url : Option Str

-- `exact` is a hash set, of which only membership is read.
pub record ExceptionsConfig : Type 0 where
  pub hosts : List Str
  pub exact : List Str
  pub suffixes : List Str

pub record Config : Type 0 where
  pub proxy : ProxyConfig
  pub upstream : Option UpstreamConfig
  pub exceptions : Option ExceptionsConfig

abbrev pub default_port : ℕ
default_port = 3128

abbrev pub default_listen_ip : Str
default_listen_ip = codes "127.0.0.1"

abbrev default_proxy : ProxyConfig
default_proxy = record {
  port = default_port;
  pac_file = none;
  allow_private_ips = false;
  listen_ip = default_listen_ip;
}

abbrev pub default_upstream : UpstreamConfig
default_upstream = record {
  auth_type = codes "none";
  username = none;
  password = none;
  use_keyring = true;
  domain = none;
  workstation = none;
  proxy_url = none;
}

abbrev pub default_config : Config
default_config = record { proxy = default_proxy; upstream = none; exceptions = none }

unfoldable pub effective_listen_ip : ProxyConfig → Str
effective_listen_ip p = if p.allow_private_ips then p.listen_ip else codes "127.0.0.1"

-- What `Debug` shows of an upstream: the password and the URL are covered.
abbrev redacted : Option Str → Option Str
redacted = map_option (λ _. codes "[REDACTED]")

unfoldable debug_fields : UpstreamConfig → UpstreamConfig
debug_fields u = record u { password = redacted u.password; proxy_url = redacted u.proxy_url }
