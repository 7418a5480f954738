-- ===== src/Route/Resolve.antt =====
-- Which proxy `resolve_proxy` names: exceptions first, then the script, then the configuration.
use ferro_vela.Prelude.{
  ℕ, ◌≡◌, refl, sym, ap, ◌∙◌, subst, inl, inr, true, false, Option, none, some, List, [], ◌∷◌, ◌++◌,
  arith, ◌==◌, Bool-cases, unwrap_or,
}
use ferro_vela.Text.{Str, codes, is_empty, is_whitespace}
use ferro_vela.Route.{
  is_exception, pac_url, configured_url, pac_outcome, pac_directive, pac_routing, first_piece, Pac,
  resolve_proxy, pac_answer,
}
use ferro_vela.Config.{ExceptionsConfig, Config}
use ferro_vela.Config.Exceptions.{matches, new}
use ferro_vela.Text.Pieces.{
  first_of, first_of-contains_char, split_char-first_of, first_of-append, first_of_whole,
}
use ferro_vela.Effect.{Outcome, returns, panics}
use ferro_vela.Text.Laws.{last_is, trim_id, IsTrimmed}
use ferro_vela.Config.Matching.{below, exactly, SomeMatches, matches_iff}
use ferro_vela.Text.Match.{starts_with, starts_with-append, split_at, contains_char}
use ferro_vela.Text.Split.{trim}

first_piece-first_of : (sep : ℕ) (s : Str) → first_piece sep s ≡ first_of (λ c. c == sep) s
unfolding first_piece
first_piece-first_of sep s = ap (λ o. unwrap_or o s) (split_char-first_of sep s)

first_piece-append :
    (sep : ℕ) (a b : Str) → contains_char a sep ≡ false → first_piece sep (a ++ (sep ∷ b)) ≡ a
first_piece-append sep a b h = first_piece-first_of sep (a ++ (sep ∷ b)) ∙ first_of-append sep a b h

first_piece_whole : (sep : ℕ) (a : Str) → contains_char a sep ≡ false → first_piece sep a ≡ a
first_piece_whole sep a h = first_piece-first_of sep a ∙ first_of_whole sep a h

first_piece-contains_char : (sep : ℕ) (s : Str) → contains_char (first_piece sep s) sep ≡ false
first_piece-contains_char sep s =
    ap (λ t. contains_char t sep) (first_piece-first_of sep s) ∙ first_of-contains_char sep s

-- A target `host:port` whose host one of the configured patterns stands for goes direct, whatever the
-- script says.
resolve_proxy-exception :
    (hosts : List Str) (host port : Str) (config : Config) (pac : Option Pac)
    → config.exceptions ≡ some (new hosts)
    → contains_char host b':' ≡ false
    → SomeMatches hosts host
    → resolve_proxy (host ++ (b':' ∷ port)) config pac ≡ returns none
unfolding resolve_proxy
resolve_proxy-exception hosts host port config pac given plain m =
    rw (given, first_piece-append b':' host port plain, (matches_iff hosts host).1 m) refl

not_matched :
    (hosts : List Str) (host : Str) → ¬ SomeMatches hosts host → matches (new hosts) host ≡ false
not_matched hosts host m = elim (Bool-cases (matches (new hosts) host)) [
  | inl matched ↦ absurd (m ((matches_iff hosts host).0 matched))
  | inr free ↦ free
]

-- No pattern stands for a host: there are no exceptions, or none of theirs does.
abbrev pub NotExcepted : Option ExceptionsConfig → Str → Type 0
NotExcepted none host = Unit
NotExcepted (some e) host = (hosts : List Str) × (e ≡ new hosts) × ¬ SomeMatches hosts host

not_exception :
    (o : Option ExceptionsConfig) (host : Str) → NotExcepted o host → is_exception o host ≡ false
not_exception none host free = refl
not_exception (some e) host (hosts, same, free) =
    ap (λ x. matches x host) same ∙ not_matched hosts host free

resolve_proxy-no_exception :
    (target : Str) (config : Config) (pac : Option Pac)
    → NotExcepted config.exceptions (first_piece b':' target)
    → resolve_proxy target config pac ≡ pac_routing target (first_piece b':' target) config pac
unfolding resolve_proxy
resolve_proxy-no_exception target config pac free =
    rw (not_exception config.exceptions (first_piece b':' target) free) refl

-- What a script's answer makes of the routing that stands without a script.
abbrev pub scripted : Outcome (Option Str) → Option Str → Outcome (Option Str)
scripted fallback none = fallback
scripted fallback (some answer) = pac_answer answer

pac_outcome-scripted :
    (config : Config) (o : Option Str) (fallback : Outcome (Option Str))
    → fallback ≡ returns (configured_url config)
    → pac_outcome config o ≡ scripted fallback o
pac_outcome-scripted config none fallback e = sym e
pac_outcome-scripted config (some answer) fallback e = refl

-- Where no pattern stands for the text before the first colon of a target, the script alone decides: by
-- its answer to the target's URL and this text, and as if there was no script when it fails.
pub resolve_proxy-script :
    (target : Str) (config : Config) (pac : Pac)
    → NotExcepted config.exceptions (first_piece b':' target)
    → resolve_proxy target config (some pac)
      ≡ scripted (resolve_proxy target config none) (pac (pac_url target) (first_piece b':' target))
resolve_proxy-script target config pac free =
    resolve_proxy-no_exception target config (some pac) free
    ∙ pac_outcome-scripted config (pac (pac_url target) (first_piece b':' target)) _
        (resolve_proxy-no_exception target config none free)

first_is_whitespace :
    (address : Str)
    → is_empty address ≡ false
    → last_is is_whitespace address ≡ false
    → IsTrimmed (codes "PROXY " ++ address)
unfolding is_whitespace
first_is_whitespace [] full h = cc
first_is_whitespace (c ∷ s) full h = (refl, h)

split_at_zero : (s : Str) → split_at s 0 ≡ some ([], s)
unfolding split_at
split_at_zero [] = refl
split_at_zero (c ∷ s) = refl

directive-proxy :
    (address : Str)
    → IsTrimmed address
    → is_empty address ≡ false
    → pac_directive (trim (codes "PROXY " ++ address)) ≡ returns (some address)
unfolding pac_directive starts_with split_at
directive-proxy address trimmed full =
    ap pac_directive
      (trim_id (codes "PROXY " ++ address) (first_is_whitespace address full trimmed.1))
    ∙ rw (split_at_zero address) (ap (λ a. returns (some a)) (trim_id address trimmed))

-- An answer that begins with an entry `PROXY address` names this address, whatever entries come
-- behind it, where the address is not empty and has neither white space at its ends nor a semicolon in
-- it.
pub pac_answer-proxy :
    (address rest : Str)
    → contains_char address b';' ≡ false
    → IsTrimmed address
    → is_empty address ≡ false
    → (pac_answer (codes "PROXY " ++ address) ≡ returns (some address))
      × (pac_answer (codes "PROXY " ++ (address ++ (b';' ∷ rest))) ≡ returns (some address))
unfolding pac_answer contains_char
pac_answer-proxy address rest plain trimmed full = (
  ap (λ t. pac_directive (trim t)) (first_piece_whole b';' (codes "PROXY " ++ address) plain)
      ∙ directive-proxy address trimmed full,
  ap (λ t. pac_directive (trim t)) (first_piece-append b';' (codes "PROXY " ++ address) rest plain)
      ∙ directive-proxy address trimmed full,
)

-- An answer whose first entry is `PROXY` without an address makes the routing panic, whatever entries
-- come behind it.
pub pac_answer-panics : (rest : Str) → pac_answer (codes "PROXY;" ++ rest) ≡ panics
unfolding pac_answer pac_directive starts_with split_at trim contains_char is_whitespace
pac_answer-panics rest =
    ap (λ t. pac_directive (trim t)) (first_piece-append b';' (codes "PROXY") rest refl) ∙ refl

colon_pattern :
    (pattern host : Str)
    → starts_with pattern (codes "*.") ≡ false
    → contains_char pattern b':' ≡ true
    → contains_char host b':' ≡ false
    → ¬ SomeMatches (pattern ∷ []) host
colon_pattern pattern host plain colon free (inl (exactly p e)) = ground (arith, e)
colon_pattern pattern host plain colon free (inl (below d f c e q)) =
    cc (sym plain ∙ ap (λ p. starts_with p (codes "*.")) e ∙ starts_with-append (codes "*.") d)
colon_pattern pattern host plain colon free (inr none_left) = none_left

-- An exact pattern with a colon in it, such as an IPv6 address, stands for the host of no target:
-- every target is routed as if there were no exceptions.
pub resolve_proxy-colon :
    (pattern target : Str) (config : Config) (pac : Option Pac)
    → starts_with pattern (codes "*.") ≡ false
    → contains_char pattern b':' ≡ true
    → config.exceptions ≡ some (new (pattern ∷ []))
    → resolve_proxy target config pac
      ≡ resolve_proxy target (record config { exceptions = none }) pac
unfolding resolve_proxy
resolve_proxy-colon pattern target config pac plain colon given =
    resolve_proxy-no_exception target config pac (
      subst (λ o. NotExcepted o (first_piece b':' target)) (sym given)
        (
          pattern ∷ [],
          refl,
          colon_pattern pattern (first_piece b':' target) plain colon
              (first_piece-contains_char b':' target),
        ))
