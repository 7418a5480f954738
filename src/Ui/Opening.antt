-- ===== src/Ui/Opening.antt =====
-- What a window saves that is opened on a configuration.
use ferro_vela.Prelude.{◌≤◌, ◌≡◌, ◌&&◌, Option, none, some, List, [], ◌∷◌, if◌then◌else◌, All}
use ferro_vela.Text.{Str, is_empty}
use ferro_vela.Text.Split.{trim}
use ferro_vela.Ui.Startup.{text_or_empty, upstream_text, auth_of, keyring_of, hosts_text}
use ferro_vela.Ui.Forms.{hosts_of, non_empty_trimmed}
use ferro_vela.Ui.Hosts.{IsClean, IsHost}
use ferro_vela.Ui.{auth_type_text, auth_type_from, is_no_auth}
use ferro_vela.Ui.Desktop.{Desktop}
use ferro_vela.Config.{Config, UpstreamConfig, ExceptionsConfig}
use ferro_vela.Config.Exceptions.{new}
use ferro_vela.Text.Number.{max_u16}

abbrev IsCleanText : Option Str → Type 0
IsCleanText none = Unit
IsCleanText (some s) = IsClean s

-- An upstream that the form can show: of a known kind, with clean texts.
abbrev pub IsShownUpstream : Option UpstreamConfig → Type 0
IsShownUpstream none = Unit
IsShownUpstream (some u) =
    (auth_type_text (auth_type_from u.auth_type) ≡ u.auth_type)
    × IsCleanText u.username
    × IsCleanText u.password
    × IsCleanText u.domain
    × IsCleanText u.workstation
    × IsCleanText u.proxy_url

-- Exceptions that are compiled of their hosts.
abbrev pub IsShownHosts : Option ExceptionsConfig → Type 0
IsShownHosts none = Unit
IsShownHosts (some e) = (hs : List Str) × (e ≡ new hs) × All IsHost hs

-- What the window keeps of a configuration: no upstream without anything in it, no password beside the
-- keyring, no empty list of exceptions.
abbrev pub kept_upstream : Option UpstreamConfig → Option UpstreamConfig
kept_upstream none = none
kept_upstream (some u) =
    if is_no_auth (auth_type_from u.auth_type)
      && is_empty (text_or_empty u.username)
      && is_empty (text_or_empty u.proxy_url)
    then none
    else some (record u { password = if u.use_keyring then none else u.password })

abbrev some_hosts : List Str → ExceptionsConfig → Option ExceptionsConfig
some_hosts [] e = none
some_hosts (h ∷ hs) e = some e

abbrev pub kept_hosts : Option ExceptionsConfig → Option ExceptionsConfig
kept_hosts none = none
kept_hosts (some e) = some_hosts e.hosts e

abbrev pub kept : Config → Config
kept c = record c { upstream = kept_upstream c.upstream; exceptions = kept_hosts c.exceptions }

abbrev pub IsShown : Config → Type 0
IsShown c =
    (c.proxy.port ≤ max_u16)
    × IsCleanText c.proxy.pac_file
    × IsClean c.proxy.listen_ip
    × IsShownUpstream c.upstream
    × IsShownHosts c.exceptions

-- What is saved of an upstream that the form shows.
abbrev saved_upstream : Option UpstreamConfig → Option UpstreamConfig
saved_upstream o =
    if is_no_auth (auth_of o)
      && is_empty (upstream_text (λ u. u.username) o)
      && is_empty (upstream_text (λ u. u.proxy_url) o)
    then none
    else some (record {
      auth_type = auth_type_text (auth_of o);
      username = non_empty_trimmed (upstream_text (λ u. u.username) o);
      password =
          if keyring_of o then none else non_empty_trimmed (upstream_text (λ u. u.password) o);
      use_keyring = keyring_of o;
      domain = non_empty_trimmed (upstream_text (λ u. u.domain) o);
      workstation = non_empty_trimmed (upstream_text (λ u. u.workstation) o);
      proxy_url = non_empty_trimmed (upstream_text (λ u. u.proxy_url) o);
    })

-- What is saved of the exceptions that the form shows.
abbrev saved_hosts : Option ExceptionsConfig → Option ExceptionsConfig
saved_hosts o =
    if is_empty (trim (hosts_text o)) then none else some (new (hosts_of (hosts_text o)))
