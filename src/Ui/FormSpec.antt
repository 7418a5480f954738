-- ===== src/Ui/FormSpec.antt =====
-- What a form without errors is, and which configuration it stands for, apart from `build_config`.
use ferro_vela.Prelude.{
  ℕ, ◌≡◌, refl, sym, subst, ◌≢◌, ◌⊎◌, inl, inr, Bool, true, false, ◌&&◌, ◌||◌, Option, none, some,
  [], ◌∷◌, if◌then◌else◌, Bool-cases, unwrap_or, is_some,
}
use ferro_vela.Text.{Str, codes, is_empty}
use ferro_vela.Ui.{
  ConfigEditor, AuthType, no_auth, basic_auth, ntlm_auth, kerberos_auth, auth_type_text, is_no_auth,
}
use ferro_vela.Ui.Update.{has_validation_errors}
use ferro_vela.Ui.Forms.{build_config, build_upstream, port_of, non_empty_trimmed, hosts_of}
use ferro_vela.Text.Split.{trim}
use ferro_vela.Text.Number.{parse_uint, max_u16}
use ferro_vela.Config.{Config, UpstreamConfig, ExceptionsConfig, default_port, default_listen_ip}
use ferro_vela.Config.Exceptions.{new}

-- No field shows an error.
abbrev pub NoErrors : ConfigEditor → Type 0
NoErrors e =
    (e.proxy_port_error ≡ none)
    × (e.pac_file_error ≡ none)
    × (e.upstream_proxy_url_error ≡ none)
    × (e.proxy_listen_ip_error ≡ none)

no_errors :
    (a b c d : Option Str)
    → (is_some a || is_some b || is_some c || is_some d) ≡ false
    → (a ≡ none) × (b ≡ none) × (c ≡ none) × (d ≡ none)
no_errors none none none none h = (refl, refl, refl, refl)
no_errors (some a) b c d h = cc
no_errors none (some b) c d h = cc
no_errors none none (some c) d h = cc
no_errors none none none (some d) h = cc

pub has_validation_errors-NoErrors :
    (e : ConfigEditor) → has_validation_errors e ≡ false → NoErrors e
unfolding has_validation_errors
has_validation_errors-NoErrors e h = no_errors _ _ _ _ h

-- A text field, without the white space at its ends; a blank one is not set.
pub data Entered (s : Str) : Option Str → Type 0 where
  blank : is_empty (trim s) ≡ true → Entered s none
  filled : is_empty (trim s) ≡ false → Entered s (some (trim s))

-- The port as it stands, or the default one.
pub data PortOf (s : Str) : ℕ → Type 0 where
  number : (n : ℕ) → parse_uint max_u16 s ≡ some n → PortOf s n
  unreadable : parse_uint max_u16 s ≡ none → PortOf s 3128

pub data ListenOf (s : Str) : Str → Type 0 where
  loopback : is_empty (trim s) ≡ true → ListenOf s (codes "127.0.0.1")
  address : is_empty (trim s) ≡ false → ListenOf s (trim s)

-- The password, which is not kept in the configuration where the keyring has it.
pub data PasswordOf (s : Str) : Bool → Option Str → Type 0 where
  in_keyring : PasswordOf s true none
  in_config : (o : Option Str) → Entered s o → PasswordOf s false o

pub record UpstreamFields (e : ConfigEditor) (u : UpstreamConfig) : Type 0 where
  pub kind : u.auth_type ≡ auth_type_text e.upstream_auth_type
  pub user : Entered e.upstream_username u.username
  pub secret : PasswordOf e.upstream_password u.use_keyring u.password
  pub ring : u.use_keyring ≡ e.upstream_use_keyring
  pub realm : Entered e.upstream_domain u.domain
  pub station : Entered e.upstream_workstation u.workstation
  pub url : Entered e.upstream_proxy_url u.proxy_url

-- There is no upstream where no authentication is chosen and both the user and the URL are empty.
pub data UpstreamOf (e : ConfigEditor) : Option UpstreamConfig → Type 0 where
  unused :
      e.upstream_auth_type ≡ no_auth
      → e.upstream_username ≡ []
      → e.upstream_proxy_url ≡ []
      → UpstreamOf e none
  used :
      (u : UpstreamConfig)
      → ((e.upstream_auth_type ≢ no_auth)
          ⊎ ((e.upstream_username ≢ []) ⊎ (e.upstream_proxy_url ≢ [])))
      → UpstreamFields e u
      → UpstreamOf e (some u)

-- The exceptions are compiled of the hosts between the commas.
pub data HostsOf (s : Str) : Option ExceptionsConfig → Type 0 where
  no_hosts : is_empty (trim s) ≡ true → HostsOf s none
  hosts : is_empty (trim s) ≡ false → HostsOf s (some (new (hosts_of s)))

pub record IsConfigOf (e : ConfigEditor) (c : Config) : Type 0 where
  pub port : PortOf e.proxy_port c.proxy.port
  pub pac : Entered e.pac_file c.proxy.pac_file
  pub allowed : c.proxy.allow_private_ips ≡ e.allow_private_ips
  pub listen : ListenOf e.proxy_listen_ip c.proxy.listen_ip
  pub upstream : UpstreamOf e c.upstream
  pub exceptions : HostsOf e.exceptions_hosts c.exceptions

entered : (s : Str) → Entered s (non_empty_trimmed s)
unfolding non_empty_trimmed
entered s = elim (Bool-cases (is_empty (trim s))) [
  | inl none_given ↦ rw none_given (blank none_given)
  | inr given ↦ rw given (filled given)
]

port_entered : (s : Str) → PortOf s (port_of s)
unfolding port_of
port_entered s = go (parse_uint max_u16 s) refl
  where
    go : (o : Option ℕ) → parse_uint max_u16 s ≡ o → PortOf s (unwrap_or o default_port)
    go none e = unreadable e
    go (some n) e = number n e

listen_entered : (s : Str) → ListenOf s (if is_empty (trim s) then default_listen_ip else trim s)
listen_entered s = elim (Bool-cases (is_empty (trim s))) [
  | inl none_given ↦ rw none_given (loopback none_given)
  | inr given ↦ rw given (address given)
]

password_entered :
    (s : Str) (ring : Bool) → PasswordOf s ring (if ring then none else non_empty_trimmed s)
password_entered s true = in_keyring
password_entered s false = in_config _ (entered s)

hosts_entered : (s : Str) → HostsOf s (if is_empty (trim s) then none else some (new (hosts_of s)))
hosts_entered s = elim (Bool-cases (is_empty (trim s))) [
  | inl none_given ↦ rw none_given (no_hosts none_given)
  | inr given ↦ rw given (hosts given)
]

nothing_chosen :
    (kind : AuthType) (user url : Str)
    → ((is_no_auth kind && is_empty user && is_empty url) ≡ true
        × ((kind ≡ no_auth) × (user ≡ []) × (url ≡ [])))
      ⊎ ((is_no_auth kind && is_empty user && is_empty url) ≡ false
          × ((kind ≢ no_auth) ⊎ ((user ≢ []) ⊎ (url ≢ []))))
nothing_chosen no_auth [] [] = inl (refl, (refl, refl, refl))
nothing_chosen no_auth [] (c ∷ s) = inr (refl, inr (inr (λ q. cc)))
nothing_chosen no_auth (c ∷ s) url = inr (refl, inr (inl (λ q. cc)))
nothing_chosen basic_auth user url = inr (refl, inl (λ q. cc))
nothing_chosen ntlm_auth user url = inr (refl, inl (λ q. cc))
nothing_chosen kerberos_auth user url = inr (refl, inl (λ q. cc))

upstream_entered : (e : ConfigEditor) → UpstreamOf e (build_upstream e)
unfolding build_upstream
upstream_entered e =
    elim (nothing_chosen e.upstream_auth_type e.upstream_username e.upstream_proxy_url) [
      | inl (off, (kind, user, url)) ↦
          subst (UpstreamOf e) (sym (rw off refl)) (unused kind user url)
      | inr (on, some_of_them) ↦ rw on (
          used _ some_of_them (record {
            kind = refl;
            user = entered e.upstream_username;
            secret = password_entered e.upstream_password e.upstream_use_keyring;
            ring = refl;
            realm = entered e.upstream_domain;
            station = entered e.upstream_workstation;
            url = entered e.upstream_proxy_url;
          }))
    ]

-- `build_config` makes the configuration that the form stands for.
pub build_config-IsConfigOf : (e : ConfigEditor) → IsConfigOf e (build_config e)
unfolding build_config
build_config-IsConfigOf e = record {
  port = port_entered e.proxy_port;
  pac = entered e.pac_file;
  allowed = refl;
  listen = listen_entered e.proxy_listen_ip;
  upstream = upstream_entered e;
  exceptions = hosts_entered e.exceptions_hosts;
}
