-- ===== src/Proxy/Credentials.antt =====
-- The credentials of a new proxy: what the CONNECT handshake and the plain requests send.
use ferro_vela.Prelude.{
  if◌then◌else◌, ◌&&◌, Bool, unwrap_or, true, some, ◌≡◌, ◌++◌, ◌∙◌, none, Option, refl, ap, false,
  [], ◌∷◌, ℕ,
}
use ferro_vela.Text.{codes, Str, is_empty}
use ferro_vela.Auth.{
  proxy_host, kerberos_for, new_kerberos, kerberos, ipv6, authenticator_with, new_basic,
  effective_password, create_authenticator, Services, basic,
}
use ferro_vela.Config.{Config, UpstreamConfig}
use ferro_vela.Route.{Pac}
use ferro_vela.Proxy.Create.{new, basic_credentials}
use ferro_vela.Text.Utf8.{as_bytes}

if_never {ℓ} : {A : Type ℓ} (b : Bool) (x y : A) → (if b && false then x else y) ≡ y
if_never true x y = refl
if_never false x y = refl

module _ (sv : Services) (u : UpstreamConfig) (config : Config) (pac : Option Pac)
    (user pass : Str) where
  abbrev encoded_credentials : Str → Str
  encoded_credentials p = sv.encode (as_bytes (user ++ (b':' ∷ p)))

  created :
      u.auth_type ≡ codes "basic"
      → u.username ≡ some user
      → effective_password sv u ≡ some pass
      → create_authenticator sv u ≡ some (basic (encoded_credentials pass))
  unfolding create_authenticator authenticator_with new_basic
  created kind name known = ap (authenticator_with sv u) known ∙ rw (kind, name) refl

  basic_text :
      (p : Str)
      → u.auth_type ≡ codes "basic"
      → u.username ≡ some user
      → is_empty user ≡ false
      → unwrap_or u.password [] ≡ p
      → basic_credentials sv (some u) ≡ some (encoded_credentials p)
  unfolding basic_credentials
  basic_text p kind name full known = rw (kind, name, known) (rw full refl)

  authenticator_of :
      config.upstream ≡ some u → (new sv config pac).authenticator ≡ create_authenticator sv u
  unfolding new
  authenticator_of e = rw e refl

  -- With Basic authentication, a user that is not empty and the password in the configuration, the CONNECT handshake and the
  -- plain requests send the same text, the encoding of `user:password`.
  pub new-configured_password :
      config.upstream ≡ some u
      → u.auth_type ≡ codes "basic"
      → u.username ≡ some user
      → is_empty user ≡ false
      → u.password ≡ some pass
      → ((new sv config pac).authenticator ≡ some (basic (encoded_credentials pass)))
        × ((new sv config pac).basic_auth_b64 ≡ some (encoded_credentials pass))
  unfolding new effective_password
  new-configured_password upstream kind name full given = (
    authenticator_of upstream ∙ created kind name (rw given (if_never u.use_keyring _ (some pass))),
    ap (basic_credentials sv) upstream ∙ basic_text pass kind name full (rw given),
  )

  -- With Basic authentication, a user that is not empty and the password in the keychain only, the CONNECT handshake sends it and the plain requests send an
  -- empty password.
  pub new-keychain_password :
      config.upstream ≡ some u
      → u.auth_type ≡ codes "basic"
      → u.username ≡ some user
      → is_empty user ≡ false
      → u.password ≡ none
      → u.use_keyring ≡ true
      → sv.get_password user ≡ some pass
      → ((new sv config pac).authenticator ≡ some (basic (encoded_credentials pass)))
        × ((new sv config pac).basic_auth_b64 ≡ some (encoded_credentials []))
  unfolding new effective_password
  new-keychain_password upstream kind name full given ring found = (
    authenticator_of upstream ∙ created kind name (rw (given, ring, name) found),
    ap (basic_credentials sv) upstream ∙ basic_text [] kind name full (rw given),
  )

bracketed_host :
    (sv : Services) (url address : Str) (port : Option ℕ)
    → sv.parse_url url ≡ some (record { host = some (ipv6 address); port = port })
    → proxy_host sv url ≡ b'[' ∷ (address ++ (b']' ∷ []))
bracketed_host sv url address port parsed = rw (parsed, proxy_host) refl

-- The host of the proxy's URL is an IPv6 address: the service name of Kerberos has it in brackets.
pub create_authenticator-kerberos_ipv6 :
    (sv : Services) (u : UpstreamConfig) (url address : Str) (port : Option ℕ)
    → u.auth_type ≡ codes "kerberos"
    → u.proxy_url ≡ some url
    → sv.parse_url url ≡ some (record { host = some (ipv6 address); port = port })
    → create_authenticator sv u
      ≡ some (kerberos (codes "HTTP@" ++ (b'[' ∷ (address ++ (b']' ∷ [])))))
unfolding create_authenticator authenticator_with new_kerberos
create_authenticator-kerberos_ipv6 sv u url address port kind given parsed =
    rw (kind, given) (ap (kerberos_for sv) (bracketed_host sv url address port parsed))
