-- ===== src/Config/Exceptions.antt =====
-- `ExceptionsConfig::new` and `matches`.
use ferro_vela.Prelude.{Bool, true, ◌&&◌, List, [], ◌∷◌, ◌++◌, ltb, if◌then◌else◌, any}
use ferro_vela.Text.{Str, codes, str_eq, str_len}
use ferro_vela.Text.Match.{starts_with, ends_with}
use ferro_vela.Config.{ExceptionsConfig}

abbrev pub set_contains : List Str → Str → Bool
set_contains set h = any (str_eq h) set

abbrev pub set_insert : Str → List Str → List Str
set_insert h set = if set_contains set h then set else set ++ (h ∷ [])

-- `h[1..]` of a text that begins with `*`.
abbrev pub tail_text : Str → Str
tail_text [] = []
tail_text (c ∷ s) = s

-- The loop over the hosts, with the two structures so far.
unfoldable pub partition : List Str → List Str → List Str → List Str × List Str
unfolding starts_with str_eq
partition [] exact suffixes = (exact, suffixes)
partition (h ∷ hs) exact suffixes =
    let wild = partition hs exact (suffixes ++ (tail_text h ∷ [])) in
    let plain = partition hs (set_insert h exact) suffixes in
    if starts_with h (codes "*.") then wild else plain

unfoldable pub new : List Str → ExceptionsConfig
unfolding partition
new hosts =
    let parts = partition hosts [] [] in
    record { hosts = hosts; exact = parts.0; suffixes = parts.1 }

abbrev pub suffix_matches : Str → Str → Bool
suffix_matches host suffix = ltb (str_len suffix) (str_len host) && ends_with host suffix

unfoldable pub matches : ExceptionsConfig → Str → Bool
unfolding str_eq str_len ends_with
matches e host = if set_contains e.exact host then true else any (suffix_matches host) e.suffixes
