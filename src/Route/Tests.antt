-- ===== src/Route/Tests.antt =====
-- Routings on a script and on a configuration with exceptions.
use ferro_vela.Prelude.{refl, [], List, false, some, ◌++◌, ◌∙◌, none, ◌≡◌, ◌∷◌, sym}
use ferro_vela.Text.{Str, len_utf8, codes}
use ferro_vela.Config.Matching.{SomeMatches, matches_iff}
use ferro_vela.Route.Resolve.{resolve_proxy-script, pac_answer-proxy}
use ferro_vela.Route.{pac_answer, Pac, resolve_proxy}
use ferro_vela.Effect.{returns}
use ferro_vela.Config.{Config, default_config}
use ferro_vela.Config.Exceptions.{new, matches}

abbrev exceptions : List Str
exceptions = codes "*.corp" ∷ codes "localhost" ∷ []

abbrev office : Config
office = record default_config { exceptions = some (new exceptions) }

abbrev script : Pac
script url host = some (codes "PROXY 10.0.0.1:8080; DIRECT")

is_other : matches (new exceptions) (codes "rust.org") ≡ false
unfolding matches new len_utf8
is_other = refl

other_host : ¬ SomeMatches exceptions (codes "rust.org")
other_host h = cc (sym ((matches_iff exceptions (codes "rust.org")).1 h) ∙ is_other)

failing_script :
    resolve_proxy (codes "rust.org:443") office (some (λ url host. none)) ≡ returns none
unfolding ferro_vela.Route.first_piece resolve_proxy matches new len_utf8
failing_script =
    resolve_proxy-script (codes "rust.org:443") office (λ url host. none)
      (exceptions, refl, other_host)

pac_answer-proxy_example :
    (pac_answer (codes "PROXY " ++ codes "10.0.0.1:8080") ≡ returns (some (codes "10.0.0.1:8080")))
    × (pac_answer (codes "PROXY " ++ (codes "10.0.0.1:8080" ++ (b';' ∷ codes " DIRECT")))
        ≡ returns (some (codes "10.0.0.1:8080")))
unfolding ferro_vela.Text.Match.contains_char ferro_vela.Text.is_whitespace
pac_answer-proxy_example =
    pac_answer-proxy (codes "10.0.0.1:8080") (codes " DIRECT") refl (refl, refl) refl

abbrev loopback_exempt : Config
loopback_exempt = record default_config { exceptions = some (new (codes "::1" ∷ [])) }
