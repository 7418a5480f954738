-- ===== src/Ui/Forms.antt =====
-- The validators of ui/controller.rs and `build_config`.
use ferro_vela.Prelude.{
  ◌||◌, none, ◌∷◌, ◌&&◌, is_some, not, Option, [], Bool, some, leb, if◌then◌else◌, List, unwrap_or,
  ℕ,
}
use ferro_vela.Text.Match.{strip_prefix, starts_with}
use ferro_vela.Text.{Str, is_empty, codes}
use ferro_vela.Text.Split.{trim, split_char}
use ferro_vela.Ui.{ConfigEditor, is_no_auth, auth_type_text}
use ferro_vela.Text.Number.{parse_uint, max_u32, max_u16}
use ferro_vela.Config.Exceptions.{new}
use ferro_vela.Config.{default_port, default_listen_ip, Config, UpstreamConfig}
use ferro_vela.Net.{parse_ip}

unfoldable pub validate_listen_ip : Str → Option Str
unfolding trim
validate_listen_ip text =
    let s = trim text in
    if is_empty s
    then none
    else if is_some (parse_ip s)
    then none
    else some (codes "Not a valid IP address")

abbrev pub port_problem : Option ℕ → Option Str
port_problem none = some (codes "Must be a number")
port_problem (some n) =
    if leb 1 n && leb n 65535 then none else some (codes "Must be between 1 and 65535")

unfoldable pub validate_port : Str → Option Str
validate_port text =
    let s = trim text in
    if is_empty s then some (codes "Required") else port_problem (parse_uint max_u32 s)

-- `exists` asks the file system.
unfoldable pub validate_pac_file : (Str → Bool) → Str → Option Str
unfolding trim starts_with
validate_pac_file exists text =
    let s = trim text in
    if is_empty s
    then none
    else if starts_with s (codes "http://") || starts_with s (codes "https://")
    then none
    else if not (exists s)
    then some (codes "File not found")
    else none

abbrev host_part : Str → Option Str
host_part s = elim (strip_prefix s (codes "http://")) [
  | some rest ↦ some rest
  | none ↦ strip_prefix s (codes "https://")
]

abbrev host_problem : Option Str → Option Str
host_problem none = some (codes "Must start with http:// or https://")
host_problem (some host) =
    if is_empty host || starts_with host (codes "/")
    then some (codes "Enter a valid URL, e.g. http://proxy.corp.com:8080")
    else none

unfoldable pub validate_proxy_url : Str → Option Str
unfolding trim strip_prefix starts_with
validate_proxy_url text =
    let s = trim text in if is_empty s then none else host_problem (host_part s)

unfoldable pub non_empty_trimmed : Str → Option Str
unfolding trim
non_empty_trimmed s = let trimmed = trim s in if is_empty trimmed then none else some trimmed

-- The pieces between commas, trimmed, the empty ones left out.
abbrev pub full_pieces : List Str → List Str
full_pieces [] = []
full_pieces (p ∷ ps) = if is_empty (trim p) then full_pieces ps else trim p ∷ full_pieces ps

unfoldable pub hosts_of : Str → List Str
unfolding split_char trim
hosts_of text = full_pieces (split_char b',' text)

-- The port is parsed as it stands.
unfoldable pub port_of : Str → ℕ
port_of text = unwrap_or (parse_uint max_u16 text) default_port

unfoldable pub build_upstream : ConfigEditor → Option UpstreamConfig
build_upstream e =
    if is_no_auth e.upstream_auth_type
      && is_empty e.upstream_username
      && is_empty e.upstream_proxy_url
    then none
    else some (record {
      auth_type = auth_type_text e.upstream_auth_type;
      username = non_empty_trimmed e.upstream_username;
      password = if e.upstream_use_keyring then none else non_empty_trimmed e.upstream_password;
      use_keyring = e.upstream_use_keyring;
      domain = non_empty_trimmed e.upstream_domain;
      workstation = non_empty_trimmed e.upstream_workstation;
      proxy_url = non_empty_trimmed e.upstream_proxy_url;
    })

unfoldable pub build_config : ConfigEditor → Config
build_config e = record {
  proxy = record {
    port = port_of e.proxy_port;
    pac_file = non_empty_trimmed e.pac_file;
    allow_private_ips = e.allow_private_ips;
    listen_ip =
        if is_empty (trim e.proxy_listen_ip) then default_listen_ip else trim e.proxy_listen_ip;
  };
  upstream = build_upstream e;
  exceptions =
      if is_empty (trim e.exceptions_hosts) then none else some (new (hosts_of e.exceptions_hosts));
}
