-- ===== src/Config/Tests.antt =====
-- Preferences without an administrator, and with one, on which the theorems of config.rs are applied.
use ferro_vela.Prelude.{
  ◌≡◌, refl, false, ◌↔◌, Option, some, Bool, [], if◌then◌else◌, none, ◌∷◌, true, arith,
}
use ferro_vela.Config.Prefs.{save_config, number, load_config, Value, Preferences}
use ferro_vela.Config.{Config}
use ferro_vela.Config.Managed.{save_config-forced}
use ferro_vela.Config.Matching.{matches_iff, SomeMatches}
use ferro_vela.Config.RoundTrip.{load_config-save_config, meaningful, recompiled}
use ferro_vela.Config.Exceptions.{matches, new}
use ferro_vela.Text.{len_utf8, codes}
use text.Mathlib.Text.{◌==◌ as key_eq}
use Prim.Native.String.{String}

-- A store is a function from keys; the forced keys keep their value.
abbrev plain_preferences : (String → Bool) → Preferences
plain_preferences forced = record {
  Store = String → Option Value;
  copy = λ k s. s k;
  set = λ k v s j. if forced j then s j else if key_eq k j then v else s j;
  synchronize = λ s. s;
  is_forced = forced;
  copy-set = λ j k v s. refl;
  copy-synchronize = λ j s. refl;
}

abbrev office : Config
office = record {
  proxy = record {
    port = 8080;
    pac_file = some (codes "/etc/proxy.pac");
    allow_private_ips = true;
    listen_ip = codes "0.0.0.0";
  };
  upstream = some (record {
    auth_type = codes "ntlm";
    username = some (codes "ada");
    password = none;
    use_keyring = true;
    domain = some (codes "CORP");
    workstation = none;
    proxy_url = some (codes "http://proxy:3128");
  });
  exceptions = some (new (codes "*.corp" ∷ codes "localhost" ∷ []));
}

load_config-save_config_example :
    load_config
      (plain_preferences (λ _. false))
      (save_config (plain_preferences (λ _. false)) office (λ _. none))
    ≡ record {
      proxy = office.proxy;
      upstream = meaningful office.upstream;
      exceptions = recompiled office.exceptions;
    }
load_config-save_config_example =
    load_config-save_config (plain_preferences (λ _. false)) (λ k. refl) office (λ _. none)
      (omega arith)

abbrev port_forced : String → Bool
port_forced k = key_eq "proxy_port" k

abbrev managed_store : String → Option Value
managed_store k = if key_eq "proxy_port" k then some (number 9000) else none

forced_key_stays :
    (plain_preferences port_forced).copy "proxy_port"
      (save_config (plain_preferences port_forced) office managed_store)
    ≡ (plain_preferences port_forced).copy "proxy_port" managed_store
forced_key_stays =
    save_config-forced (plain_preferences port_forced) "proxy_port" refl office managed_store

matches_iff_example :
    (matches (new (codes "*.corp" ∷ codes "localhost" ∷ [])) (codes "build.corp") ≡ true)
    ↔ SomeMatches (codes "*.corp" ∷ codes "localhost" ∷ []) (codes "build.corp")
matches_iff_example = matches_iff (codes "*.corp" ∷ codes "localhost" ∷ []) (codes "build.corp")

wildcards_match :
    (matches (new (codes "*.corp" ∷ codes "localhost" ∷ [])) (codes "build.corp") ≡ true)
    × (matches (new (codes "*.corp" ∷ [])) (codes ".corp") ≡ false)
    × (matches (new (codes "*.corp" ∷ [])) (codes "corp") ≡ false)
    × (matches (new (codes "intra*" ∷ [])) (codes "intranet") ≡ false)
unfolding matches new len_utf8
wildcards_match = (refl, refl, refl, refl)
