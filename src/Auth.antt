-- ===== src/Auth.antt =====
-- Upstream authentication: crates/ferrovela-lib/src/auth/. An authenticator makes sessions, and a
-- session answers the proxy's challenges. The trait objects are one data type with a constructor for
-- each implementation.
pub mod Sessions
pub mod Schemes
pub mod Tests
use ferro_vela.Prelude.{
  ℕ, Bool, true, false, ◌&&◌, List, [], ◌∷◌, ◌++◌, Option, none, some, if◌then◌else◌, is_none,
  unwrap_or,
}
use ferro_vela.Text.{Str, codes, str_eq, is_empty}
use ferro_vela.Text.Match.{starts_with, strip_prefix, split_at}
use ferro_vela.Text.Split.{trim}
use ferro_vela.Text.Utf8.{Bytes, as_bytes}
use ferro_vela.Config.{UpstreamConfig}

pub data Host : Type 0 where
  domain : Str → Host
  ipv4 : Str → Host
  ipv6 : Str → Host

-- A URL that was parsed: its host, and the port that it names or that its scheme stands for.
pub record Url : Type 0 where
  pub host : Option Host
  pub port : Option ℕ

-- The crates and system services behind authentication, which are not part of the repository:
-- `base64`, `url`, the keychain of `keyring_core`, `ntlmclient` (at the time of the call) and the
-- Kerberos library. A `none` stands for their errors.
pub record Services : Type 1 where
  pub encode : Bytes → Str
  pub decode : Str → Option Bytes
  pub parse_url : Str → Option Url
  pub get_password : Str → Option Str
  pub ntlm_negotiate : Str → Str → Option Bytes
  pub NtlmChallenge : Type 0
  pub ntlm_read : Bytes → Option (Option NtlmChallenge)
  pub ntlm_respond : NtlmChallenge → Str → Str → Str → Str → Option Bytes
  pub GssContext : Type 0
  pub gss_context : Str → Option GssContext
  pub gss_step : GssContext → Option Bytes → Option (Option Bytes) × GssContext

-- `Url::host_str`: an IPv6 address stands in brackets there, as the crate documents.
abbrev host_text : Host → Str
host_text (domain s) = s
host_text (ipv4 s) = s
host_text (ipv6 s) = b'[' ∷ (s ++ (b']' ∷ []))

abbrev host_str : Url → Option Str
host_str u = elim u.host [ none ↦ none | some h ↦ some (host_text h) ]

pub data NtlmState : Type 0 where
  initial challenged complete : NtlmState

pub record NtlmCredentials : Type 0 where
  pub username : Str
  pub password : Str
  pub domain : Str
  pub workstation : Str

pub data Authenticator : Type 0 where
  basic : Str → Authenticator
  ntlm : NtlmCredentials → Authenticator
  kerberos : Str → Authenticator
  mock_kerberos : Authenticator

-- What a session answers: a token, nothing, or an error; and the session after it.
pub data Answer (S : Type 0) : Type 0 where
  token : Str → S → Answer S
  silent : S → Answer S
  failed : Answer S

module _ (sv : Services) where
  open sv use {
    encode, decode, ntlm_negotiate, ntlm_read, ntlm_respond, GssContext, gss_context, gss_step,
  }

  pub data Session : Type 0 where
    basic_session : Str → Session
    ntlm_session : NtlmCredentials → NtlmState → Session
    kerberos_session : Str → Option GssContext → Session
    mock_session : Session

  -- `BasicAuthenticator::new`, `NtlmAuthenticator::new`, `KerberosAuthenticator::new`.
  unfoldable pub new_basic : Str → Str → Authenticator
  new_basic username password = basic (encode (as_bytes (username ++ (b':' ∷ password))))

  unfoldable pub new_kerberos : Str → Authenticator
  new_kerberos proxy_host = kerberos (codes "HTTP@" ++ proxy_host)

  unfoldable pub create_session : Authenticator → Session
  create_session (basic encoded) = basic_session encoded
  create_session (ntlm c) = ntlm_session c initial
  create_session (kerberos service) = kerberos_session service none
  create_session mock_kerberos = mock_session

  abbrev pub ntlm_token : Option Bytes → Session → Answer Session
  ntlm_token none s = failed
  ntlm_token (some bytes) s = token (codes "NTLM " ++ encode bytes) s

  -- A message of another type than Type 2 is an error.
  abbrev pub respond_message : NtlmCredentials → Option (Option sv.NtlmChallenge) → Answer Session
  respond_message c none = failed
  respond_message c (some none) = failed
  respond_message c (some (some challenge)) =
      ntlm_token (ntlm_respond challenge c.username c.password c.domain c.workstation)
        (ntlm_session c complete)

  -- The bytes behind `NTLM `.
  abbrev pub respond_to : NtlmCredentials → Option Bytes → Answer Session
  respond_to c none = failed
  respond_to c (some bytes) = respond_message c (ntlm_read bytes)

  abbrev pub respond_text : NtlmCredentials → Option Str → Answer Session
  respond_text c none = failed
  respond_text c (some b64) = respond_to c (decode (trim b64))

  pub ntlm_step : NtlmCredentials → NtlmState → Option Str → Answer Session
  unfolding strip_prefix trim
  ntlm_step c initial challenge =
      ntlm_token (ntlm_negotiate c.domain c.workstation) (ntlm_session c challenged)
  ntlm_step c challenged none = failed
  ntlm_step c challenged (some text) = respond_text c (strip_prefix text (codes "NTLM "))
  ntlm_step c complete challenge = silent (ntlm_session c complete)

  -- The token in a challenge: none without one, an error if it is of another scheme.
  pub input_token : Option Str → Option (Option Bytes)
  unfolding strip_prefix trim str_eq
  input_token none = some none
  input_token (some c) =
      if is_empty (trim c) then some none else elim (strip_prefix c (codes "Negotiate ")) [
        | some stripped ↦ elim (decode (trim stripped)) [ none ↦ none | some b ↦ some (some b) ]
        | none ↦ if str_eq (trim c) (codes "Negotiate") then some none else none
      ]

  abbrev pub gss_answer : Str → Option (Option Bytes) × GssContext → Answer Session
  gss_answer service (none, ctx) = failed
  gss_answer service (some none, ctx) = silent (kerberos_session service (some ctx))
  gss_answer service (some (some bytes), ctx) =
      token (codes "Negotiate " ++ encode bytes) (kerberos_session service (some ctx))

  -- The context is made on the first step and kept.
  abbrev ensure_context : Str → Option GssContext → Option GssContext
  ensure_context service none = gss_context service
  ensure_context service (some ctx) = some ctx

  abbrev pub kerberos_answer : Str → Option GssContext → Option (Option Bytes) → Answer Session
  kerberos_answer service ctx none = failed
  kerberos_answer service none (some input) = failed
  kerberos_answer service (some c) (some input) = gss_answer service (gss_step c input)

  pub kerberos_step : Str → Option GssContext → Option Str → Answer Session
  unfolding input_token
  kerberos_step service ctx challenge =
      kerberos_answer service (ensure_context service ctx) (input_token challenge)

  unfoldable basic_step : Str → Option Str → Answer Session
  basic_step encoded challenge = token (codes "Basic " ++ encoded) (basic_session encoded)

  unfoldable mock_step : Option Str → Answer Session
  mock_step challenge = token (codes "Negotiate MockKerberosToken") mock_session

  unfoldable pub step : Session → Option Str → Answer Session
  unfolding basic_step ntlm_step kerberos_step mock_step
  step (basic_session encoded) challenge = basic_step encoded challenge
  step (ntlm_session c state) challenge = ntlm_step c state challenge
  step (kerberos_session service ctx) challenge = kerberos_step service ctx challenge
  step mock_session challenge = mock_step challenge

  -- The password of the configuration, or of the keychain if the configuration names none.
  unfoldable pub effective_password : UpstreamConfig → Option Str
  effective_password u =
      if u.use_keyring && is_none u.password
      then elim u.username [ none ↦ none | some name ↦ sv.get_password name ]
      else u.password

  abbrev with_credentials :
      Option Str → Option Str → (Str → Str → Authenticator) → Option Authenticator
  with_credentials (some u) (some p) make = some (make u p)
  with_credentials (some u) none make = none
  with_credentials none p make = none

  -- The host of the proxy's URL, empty if there is none.
  abbrev pub proxy_host : Str → Str
  proxy_host url = elim (sv.parse_url url) [ none ↦ [] | some u ↦ unwrap_or (host_str u) [] ]

  abbrev pub kerberos_for : Str → Option Authenticator
  kerberos_for host = if is_empty host then none else some (new_kerberos host)

  -- The `match` on the kind of authentication.
  unfoldable pub authenticator_with : UpstreamConfig → Option Str → Option Authenticator
  unfolding str_eq new_basic new_kerberos
  authenticator_with u password =
      if str_eq u.auth_type (codes "basic")
      then with_credentials u.username password new_basic
      else if str_eq u.auth_type (codes "kerberos")
      then elim u.proxy_url [ none ↦ none | some url ↦ kerberos_for (proxy_host url) ]
      else if str_eq u.auth_type (codes "ntlm")
      then with_credentials u.username password (λ name pass. ntlm (record {
        username = name;
        password = pass;
        domain = unwrap_or u.domain [];
        workstation = unwrap_or u.workstation [];
      }))
      else none

  unfoldable pub create_authenticator : UpstreamConfig → Option Authenticator
  create_authenticator u = authenticator_with u (effective_password u)
