-- ===== src/Config/Managed.antt =====
-- Keys that an administrator's profile forces: `save_config` cannot change what is read of them.
use ferro_vela.Prelude.{some, Option, true, ◌≡◌, ◌∙◌, none}
use ferro_vela.Config.{Config, ExceptionsConfig, UpstreamConfig}
use ferro_vela.Config.Prefs.{
  save_config, save_exceptions, Value, Preferences, save_proxy, save_upstream,
}
use Prim.Native.String.{String}

module _ (prefs : Preferences) (j : String) (forced : prefs.is_forced j ≡ true) where
  open prefs use {Store, copy, set, synchronize, copy-set, copy-synchronize}

  copy-set_forced : (k : String) (v : Option Value) (s : Store) → copy j (set k v s) ≡ copy j s
  copy-set_forced k v s = copy-set j k v s ∙ rw forced

  -- A save leaves what is read of a forced key as it was, whichever key it is.
  pub save_config-forced : (c : Config) (s : Store) → copy j (save_config prefs c s) ≡ copy j s
  unfolding save_config
  save_config-forced c s = go c.upstream c.exceptions
    where
      go :
          (u : Option UpstreamConfig) (e : Option ExceptionsConfig)
          → copy j (
              synchronize
                (save_exceptions prefs e (save_upstream prefs u (save_proxy prefs c.proxy s))))
            ≡ copy j s
      go none none = simp (copy-synchronize, copy-set_forced)
      go none (some e) = simp (copy-synchronize, copy-set_forced)
      go (some u) none = simp (copy-synchronize, copy-set_forced)
      go (some u) (some e) = simp (copy-synchronize, copy-set_forced)
