-- ===== src/Config/RoundTrip.antt =====
-- What is loaded after a save.
use Prim.Native.String.{String}
use text.Mathlib.Text.{◌==◌ as key_eq}
use ferro_vela.Prelude.{
  ℕ, ◌≤◌, ◌≡◌, refl, Bool, true, false, ◌&&◌, ◌||◌, List, [], ◌∷◌, Option, none, some, arith, leb,
  if◌then◌else◌, map_option, is_none, ◌>>=◌, ◌∙◌,
}
use ferro_vela.Text.{Str, codes, str_eq}
use ferro_vela.Text.Number.{max_u16}
use ferro_vela.Config.{UpstreamConfig, ExceptionsConfig, Config}
use ferro_vela.Config.Prefs.{
  save_proxy, as_strings, array_value, save_upstream, save_exceptions, Value, string, Preferences,
  as_string, exceptions_of, load_config, save_config, load_upstream_config, load_exceptions_config,
}

-- What a save forgets: an upstream with neither an authentication type, a user nor a URL, and an
-- empty list of exceptions; the lookup structures are compiled anew.
abbrev pub meaningful : Option UpstreamConfig → Option UpstreamConfig
meaningful none = none
meaningful (some u) =
    if str_eq u.auth_type (codes "none") && is_none u.username && is_none u.proxy_url
    then none
    else some u

abbrev pub recompiled : Option ExceptionsConfig → Option ExceptionsConfig
recompiled none = none
recompiled (some e) = exceptions_of e.hosts

string_back : (o : Option Str) → (map_option string o >>= as_string) ≡ o
string_back none = refl
string_back (some s) = refl

le→leb : (a b : ℕ) → a ≤ b → leb a b ≡ true
le→leb a b h = ground arith

-- A key outside the two sections.
record IsOtherKey (j : String) : Type 0 where
  type : key_eq "upstream_auth_type" j ≡ false
  user : key_eq "upstream_username" j ≡ false
  pass : key_eq "upstream_password" j ≡ false
  ring : key_eq "upstream_use_keyring" j ≡ false
  domain : key_eq "upstream_domain" j ≡ false
  station : key_eq "upstream_workstation" j ≡ false
  url : key_eq "upstream_proxy_url" j ≡ false
  hosts : key_eq "exceptions_hosts" j ≡ false

port_key : IsOtherKey "proxy_port"
port_key = record {
  type = refl;
  user = refl;
  pass = refl;
  ring = refl;
  domain = refl;
  station = refl;
  url = refl;
  hosts = refl;
}

pac_key : IsOtherKey "proxy_pac_file"
pac_key = record {
  type = refl;
  user = refl;
  pass = refl;
  ring = refl;
  domain = refl;
  station = refl;
  url = refl;
  hosts = refl;
}

allow_key : IsOtherKey "proxy_allow_private_ips"
allow_key = record {
  type = refl;
  user = refl;
  pass = refl;
  ring = refl;
  domain = refl;
  station = refl;
  url = refl;
  hosts = refl;
}

listen_key : IsOtherKey "proxy_listen_ip"
listen_key = record {
  type = refl;
  user = refl;
  pass = refl;
  ring = refl;
  domain = refl;
  station = refl;
  url = refl;
  hosts = refl;
}

or_false : (b : Bool) → (b || false) ≡ b
or_false b = ground arith

module _ (prefs : Preferences) (unmanaged : (k : String) → prefs.is_forced k ≡ false) where
  open prefs use {Store, copy, set, synchronize, copy-set, copy-synchronize}

  copy-set_unmanaged :
      (j k : String) (v : Option Value) (s : Store)
      → copy j (set k v s) ≡ (if key_eq k j then v else copy j s)
  copy-set_unmanaged j k v s = copy-set j k v s ∙ rw (unmanaged j)

  load_upstream-saved :
      (u : Option UpstreamConfig) (e : Option ExceptionsConfig) (s : Store)
      → load_upstream_config prefs (synchronize (save_exceptions prefs e (save_upstream prefs u s)))
        ≡ meaningful u
  unfolding load_upstream_config save_config
  load_upstream-saved none none s = simp (copy-synchronize, copy-set_unmanaged)
  load_upstream-saved none (some e) s = simp (copy-synchronize, copy-set_unmanaged)
  load_upstream-saved (some u) none s =
      simp (copy-synchronize, copy-set_unmanaged, string_back, or_false)
  load_upstream-saved (some u) (some e) s =
      simp (copy-synchronize, copy-set_unmanaged, string_back, or_false)

  load_exceptions-saved :
      (u : Option UpstreamConfig) (e : Option ExceptionsConfig) (s : Store)
      → load_exceptions_config prefs
          (synchronize (save_exceptions prefs e (save_upstream prefs u s)))
        ≡ recompiled e
  unfolding load_exceptions_config save_config
  load_exceptions-saved u none s = simp (copy-synchronize, copy-set_unmanaged)
  load_exceptions-saved u (some e) s = go e.hosts
    where
      go :
          (hosts : List Str)
          → (copy "exceptions_hosts" (
                synchronize
                  (set "exceptions_hosts" (array_value (some hosts)) (save_upstream prefs u s)))
              >>= as_strings
              >>= exceptions_of)
            ≡ exceptions_of hosts
      go [] = simp (copy-synchronize, copy-set_unmanaged)
      go (h ∷ hs) = simp (copy-synchronize, copy-set_unmanaged)

  -- The writes of the upstream and of the exceptions leave every other key alone.
  module _ (j : String) (h : IsOtherKey j) where
    copy-saved :
        (u : Option UpstreamConfig) (e : Option ExceptionsConfig) (s : Store)
        → copy j (save_exceptions prefs e (save_upstream prefs u s)) ≡ copy j s
    unfolding save_config
    copy-saved none none s =
        simp
          (copy-set_unmanaged, h.type, h.user, h.pass, h.ring, h.domain, h.station, h.url, h.hosts)
    copy-saved none (some e) s =
        simp
          (copy-set_unmanaged, h.type, h.user, h.pass, h.ring, h.domain, h.station, h.url, h.hosts)
    copy-saved (some u) none s =
        simp
          (copy-set_unmanaged, h.type, h.user, h.pass, h.ring, h.domain, h.station, h.url, h.hosts)
    copy-saved (some u) (some e) s =
        simp
          (copy-set_unmanaged, h.type, h.user, h.pass, h.ring, h.domain, h.station, h.url, h.hosts)

  proxy-saved :
      (c : Config) (s : Store)
      → c.proxy.port ≤ max_u16
      → (load_config prefs (save_config prefs c s)).proxy ≡ c.proxy
  unfolding load_config save_config
  proxy-saved c s h = simp (
    copy-synchronize,
    copy-saved "proxy_port" port_key,
    copy-saved "proxy_pac_file" pac_key,
    copy-saved "proxy_allow_private_ips" allow_key,
    copy-saved "proxy_listen_ip" listen_key,
    copy-set_unmanaged,
    string_back,
    le→leb _ _ h,
  )

  -- A configuration whose port fits 16 bits is loaded as it was saved, where no key is managed by an
  -- administrator, but for an upstream with nothing meaningful in it and an empty list of exceptions.
  pub load_config-save_config :
      (c : Config) (s : Store)
      → c.proxy.port ≤ max_u16
      → load_config prefs (save_config prefs c s) ≡ record {
        proxy = c.proxy;
        upstream = meaningful c.upstream;
        exceptions = recompiled c.exceptions;
      }
  unfolding load_config save_config
  load_config-save_config c s h = λ i. record {
    proxy = proxy-saved c s h i;
    upstream = load_upstream-saved c.upstream c.exceptions (save_proxy prefs c.proxy s) i;
    exceptions = load_exceptions-saved c.upstream c.exceptions (save_proxy prefs c.proxy s) i;
  }
