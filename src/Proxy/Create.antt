-- ===== src/Proxy/Create.antt =====
-- `Proxy::new`, and the address that a proxy listens on.
use ferro_vela.Prelude.{[], ◌∷◌, ◌++◌, Option, none, some, if◌then◌else◌, unwrap_or}
use ferro_vela.Text.{Str, codes, str_eq, is_empty}
use ferro_vela.Text.Number.{to_string}
use ferro_vela.Text.Utf8.{as_bytes}
use ferro_vela.Config.{Config, UpstreamConfig, effective_listen_ip}
use ferro_vela.Auth.{Services, create_authenticator}
use ferro_vela.Route.{Pac}
use ferro_vela.Proxy.{Proxy}

-- `Proxy::new`. The Base64 text of `user:pass` is made once, for Basic authentication with a user.
unfoldable pub basic_credentials : Services → Option UpstreamConfig → Option Str
unfolding str_eq as_bytes
basic_credentials sv none = none
basic_credentials sv (some u) =
    let user = unwrap_or u.username [] in
    let pass = unwrap_or u.password [] in
    if str_eq u.auth_type (codes "basic")
    then (if is_empty user then none else some (sv.encode (as_bytes (user ++ (b':' ∷ pass)))))
    else none

unfoldable pub new : Services → Config → Option Pac → Proxy
unfolding create_authenticator basic_credentials
new sv config pac = record {
  config = config;
  pac = pac;
  authenticator = elim config.upstream [ none ↦ none | some u ↦ create_authenticator sv u ];
  basic_auth_b64 = basic_credentials sv config.upstream;
}

-- The address that `run` binds.
unfoldable listen_addr : Proxy → Str
unfolding effective_listen_ip to_string
listen_addr p = effective_listen_ip p.config.proxy ++ (b':' ∷ to_string p.config.proxy.port)
