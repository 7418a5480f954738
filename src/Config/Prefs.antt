-- ===== src/Config/Prefs.antt =====
-- `load_config` and `save_config` over the preferences of macOS. CFPreferences is not part of the
-- repository: it is a parameter, with what the code relies on as laws. A value that an
-- administrator's profile forces is read whatever was written.
use Prim.Native.String.{String}
use text.Mathlib.Text.{◌==◌ as key_eq}
use ferro_vela.Prelude.{
  ℕ, ◌≡◌, Bool, true, false, ◌&&◌, ◌||◌, List, [], ◌∷◌, Option, none, some, leb, if◌then◌else◌,
  unwrap_or, map_option, is_none, ◌>>=◌,
}
use ferro_vela.Text.{Str, codes, str_eq}
use ferro_vela.Text.Number.{max_u16}
use ferro_vela.Config.{
  ProxyConfig, UpstreamConfig, ExceptionsConfig, Config, default_port, default_listen_ip,
}
use ferro_vela.Config.Exceptions.{new}

-- A property-list value, by its `CFGetTypeID`; numbers are 64-bit integers.
pub data Value : Type 0 where
  string : Str → Value
  boolean : Bool → Value
  number : ℕ → Value
  negative : ℕ → Value
  strings : List Str → Value
  other : Value

-- `copy` is `CFPreferencesCopyAppValue`, `set` is `CFPreferencesSetAppValue` (none for a null
-- value), both for the application's own domain.
pub record Preferences : Type 1 where
  pub Store : Type 0
  pub copy : String → Store → Option Value
  pub set : String → Option Value → Store → Store
  pub synchronize : Store → Store
  pub is_forced : String → Bool
  pub copy-set :
      (j k : String) (v : Option Value) (s : Store)
      → copy j (set k v s) ≡ (if is_forced j then copy j s else if key_eq k j then v else copy j s)
  pub copy-synchronize : (j : String) (s : Store) → copy j (synchronize s) ≡ copy j s

-- The conversions behind the type tests of the readers.
abbrev pub as_string : Value → Option Str
as_string (string s) = some s
as_string _ = none

abbrev as_bool : Value → Option Bool
as_bool (boolean b) = some b
as_bool _ = none

-- `to_i64().and_then(|n| u16::try_from(n).ok())`.
abbrev as_u16 : Value → Option ℕ
as_u16 (number n) = if leb n max_u16 then some n else none
as_u16 _ = none

abbrev pub as_strings : Value → Option (List Str)
as_strings (strings l) = some l
as_strings _ = none

abbrev pub array_value : Option (List Str) → Option Value
array_value none = none
array_value (some []) = none
array_value (some (h ∷ hs)) = some (strings (h ∷ hs))

abbrev some_eq : Option Str → Str → Bool
some_eq none t = false
some_eq (some s) t = str_eq s t

abbrev pub exceptions_of : List Str → Option ExceptionsConfig
exceptions_of [] = none
exceptions_of (h ∷ hs) = some (new (h ∷ hs))

module _ (prefs : Preferences) where
  open prefs use {Store, copy, set, synchronize}

  unfoldable read_cf_string : String → Store → Option Str
  read_cf_string key s = copy key s >>= as_string

  unfoldable read_cf_bool : String → Store → Option Bool
  read_cf_bool key s = copy key s >>= as_bool

  unfoldable read_cf_number_u16 : String → Store → Option ℕ
  read_cf_number_u16 key s = copy key s >>= as_u16

  unfoldable read_cf_string_array : String → Store → Option (List Str)
  read_cf_string_array key s = copy key s >>= as_strings

  pub write_cf_string : String → Option Str → Store → Store
  write_cf_string key v s = set key (map_option string v) s

  pub write_cf_bool : String → Bool → Store → Store
  write_cf_bool key v s = set key (some (boolean v)) s

  pub write_cf_number_u16 : String → ℕ → Store → Store
  write_cf_number_u16 key v s = set key (some (number v)) s

  pub write_cf_string_array : String → Option (List Str) → Store → Store
  write_cf_string_array key v s = set key (array_value v) s

  unfoldable pub load_upstream_config : Store → Option UpstreamConfig
  unfolding read_cf_string read_cf_bool str_eq
  load_upstream_config s =
      let auth_type = read_cf_string "upstream_auth_type" s in
      let username = read_cf_string "upstream_username" s in
      let proxy_url = read_cf_string "upstream_proxy_url" s in
      if (some_eq auth_type (codes "none") || is_none auth_type)
        && is_none username
        && is_none proxy_url
      then none
      else some (record {
        auth_type = unwrap_or auth_type (codes "none");
        username = username;
        password = read_cf_string "upstream_password" s;
        use_keyring = unwrap_or (read_cf_bool "upstream_use_keyring" s) true;
        domain = read_cf_string "upstream_domain" s;
        workstation = read_cf_string "upstream_workstation" s;
        proxy_url = proxy_url;
      })

  unfoldable pub load_exceptions_config : Store → Option ExceptionsConfig
  unfolding read_cf_string_array
  load_exceptions_config s = read_cf_string_array "exceptions_hosts" s >>= exceptions_of

  unfoldable pub load_config : Store → Config
  unfolding read_cf_string read_cf_bool read_cf_number_u16 load_upstream_config
      load_exceptions_config
  load_config s = record {
    proxy = record {
      port = unwrap_or (read_cf_number_u16 "proxy_port" s) default_port;
      pac_file = read_cf_string "proxy_pac_file" s;
      allow_private_ips = unwrap_or (read_cf_bool "proxy_allow_private_ips" s) false;
      listen_ip = unwrap_or (read_cf_string "proxy_listen_ip" s) default_listen_ip;
    };
    upstream = load_upstream_config s;
    exceptions = load_exceptions_config s;
  }

  abbrev pub save_upstream : Option UpstreamConfig → Store → Store
  save_upstream (some u) s0 =
      let s1 = write_cf_string "upstream_auth_type" (some u.auth_type) s0 in
      let s2 = write_cf_string "upstream_username" u.username s1 in
      let s3 = write_cf_string "upstream_password" u.password s2 in
      let s4 = write_cf_bool "upstream_use_keyring" u.use_keyring s3 in
      let s5 = write_cf_string "upstream_domain" u.domain s4 in
      let s6 = write_cf_string "upstream_workstation" u.workstation s5 in
      write_cf_string "upstream_proxy_url" u.proxy_url s6
  save_upstream none s0 =
      let s1 = write_cf_string "upstream_auth_type" none s0 in
      let s2 = write_cf_string "upstream_username" none s1 in
      let s3 = write_cf_string "upstream_password" none s2 in
      let s4 = write_cf_bool "upstream_use_keyring" false s3 in
      let s5 = write_cf_string "upstream_domain" none s4 in
      let s6 = write_cf_string "upstream_workstation" none s5 in
      write_cf_string "upstream_proxy_url" none s6

  abbrev pub save_exceptions : Option ExceptionsConfig → Store → Store
  save_exceptions (some e) s = write_cf_string_array "exceptions_hosts" (some e.hosts) s
  save_exceptions none s = write_cf_string_array "exceptions_hosts" none s

  abbrev pub save_proxy : ProxyConfig → Store → Store
  save_proxy p s0 =
      let s1 = write_cf_number_u16 "proxy_port" p.port s0 in
      let s2 = write_cf_string "proxy_pac_file" p.pac_file s1 in
      let s3 = write_cf_bool "proxy_allow_private_ips" p.allow_private_ips s2 in
      write_cf_string "proxy_listen_ip" (some p.listen_ip) s3

  -- It always returns `Ok(())`.
  unfoldable pub save_config : Config → Store → Store
  unfolding write_cf_string write_cf_bool write_cf_number_u16 write_cf_string_array
  save_config c s =
      synchronize (save_exceptions c.exceptions (save_upstream c.upstream (save_proxy c.proxy s)))
