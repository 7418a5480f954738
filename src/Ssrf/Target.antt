-- ===== src/Ssrf/Target.antt =====
-- The guard on a whole target `host:port`.
use ferro_vela.Prelude.{
  List, ap, sym, ◌∙◌, some, ◌≤◌, ◌||◌, append_assoc, append-nil, all, ℕ, ◌≡◌, refl, Bool, true,
  false, [], ◌∷◌, ◌++◌, arith, ◌==◌,
}
use ferro_vela.Text.{Str}
use ferro_vela.Text.Match.{contains_char}
use ferro_vela.Text.Split.{drop_while, drop_while_end}
use ferro_vela.Text.Laws.{
  to_string-all, all-append, last_is-all, first_is-all, rsplit_once-append, last_is, first_is,
  drop_while_id, drop_while_end_id,
}
use ferro_vela.Ssrf.{
  is_private_parsed, is_private_v6, is_private_v4, is_private_target, host_of_target,
  strip_brackets,
}
use ferro_vela.Text.Number.{is_digit, to_string}
use ferro_vela.Net.Dotted.{dotted, parse_ip-dotted}
use ferro_vela.Net.{parse_ip, v6}

-- The guard reads the text before the last colon.
host_of_target-port :
    (h port : Str) → contains_char port b':' ≡ false → host_of_target (h ++ (b':' ∷ port)) ≡ h
unfolding host_of_target
host_of_target-port h port n = rw (rsplit_once-append b':' h port n, host_of_target)

-- Brackets round a host that has none are taken off.
strip_brackets_id :
    (h : Str)
    → first_is (λ c. c == b'[') h ≡ false
    → last_is (λ c. c == b']') h ≡ false
    → strip_brackets h ≡ h
unfolding strip_brackets
strip_brackets_id h f l = rw (drop_while_id _ h f) (drop_while_end_id _ h l)

drop_while_end_one :
    (p : ℕ → Bool) (h : Str) (c : ℕ)
    → last_is p h ≡ false
    → p c ≡ true
    → drop_while_end p (h ++ (c ∷ [])) ≡ h
unfolding drop_while_end
drop_while_end_one p [] c l e = rw e
drop_while_end_one p (x ∷ []) c l e = rw e (rw l)
drop_while_end_one p (x ∷ (y ∷ h)) c l e = rw (drop_while_end_one p (y ∷ h) c l e) (ground arith)

strip_brackets_both :
    (h : Str)
    → first_is (λ c. c == b'[') h ≡ false
    → last_is (λ c. c == b']') h ≡ false
    → strip_brackets (b'[' ∷ (h ++ (b']' ∷ []))) ≡ h
unfolding strip_brackets drop_while
strip_brackets_both [] f l = refl
strip_brackets_both (c ∷ h) f l = rw f (drop_while_end_one (λ x. x == b']') (c ∷ h) b']' l refl)

abbrev in_dotted : ℕ → Bool
in_dotted c = is_digit c || c == b'.'

digit_in_dotted : (s : Str) → all is_digit s ≡ true → all in_dotted s ≡ true
digit_in_dotted [] h = refl
digit_in_dotted (c ∷ s) h = ground (arith, digit_in_dotted s)

number_in_dotted :
    (n : ℕ) (rest : Str) → all in_dotted rest ≡ true → all in_dotted (to_string n ++ rest) ≡ true
number_in_dotted n rest h =
    all-append in_dotted (to_string n) rest (digit_in_dotted (to_string n) (to_string-all n)) h

dotted-in_dotted : (a b c d : ℕ) → all in_dotted (dotted a b c d []) ≡ true
dotted-in_dotted a b c d =
    number_in_dotted a (b'.' ∷ _)
      (number_in_dotted b (b'.' ∷ _) (number_in_dotted c (b'.' ∷ _) (number_in_dotted d [] refl)))

dotted-append : (a b c d : ℕ) (rest : Str) → dotted a b c d rest ≡ dotted a b c d [] ++ rest
dotted-append a b c d rest = simp (append_assoc, append-nil)

strip_brackets-dotted : (a b c d : ℕ) → strip_brackets (dotted a b c d []) ≡ dotted a b c d []
strip_brackets-dotted a b c d =
    strip_brackets_id _
      (first_is-all (λ c. c == b'[') in_dotted (λ c h. ground arith) (dotted a b c d [])
        (dotted-in_dotted a b c d))
      (last_is-all (λ c. c == b']') in_dotted (λ c h. ground arith) (dotted a b c d [])
        (dotted-in_dotted a b c d))

module _ (a b c d : ℕ) (port : Str) (ha : a ≤ 255) (hb : b ≤ 255) (hc : c ≤ 255) (hd : d ≤ 255)
    (hp : contains_char port b':' ≡ false) where
  -- On a target `a.b.c.d:port` the guard answers as it does on the address, whatever the port is.
  pub is_private_target-dotted :
      is_private_target (dotted a b c d (b':' ∷ port)) ≡ is_private_v4 a b c d
  unfolding is_private_target
  is_private_target-dotted =
      ap (λ t. is_private_parsed (parse_ip (strip_brackets (host_of_target t))))
        (dotted-append a b c d (b':' ∷ port))
      ∙ ap (λ h. is_private_parsed (parse_ip (strip_brackets h)))
          (host_of_target-port (dotted a b c d []) port hp)
      ∙ ap (λ h. is_private_parsed (parse_ip h)) (strip_brackets-dotted a b c d)
      ∙ ap is_private_parsed (parse_ip-dotted a b c d ha hb hc hd)

-- The bracketed IPv6 form goes through the IPv6 test of the address that it spells.
pub is_private_target-bracketed :
    (h port : Str) (l : List ℕ)
    → contains_char port b':' ≡ false
    → first_is (λ c. c == b'[') h ≡ false
    → last_is (λ c. c == b']') h ≡ false
    → parse_ip h ≡ some (v6 l)
    → is_private_target (b'[' ∷ (h ++ (b']' ∷ (b':' ∷ port)))) ≡ is_private_v6 l
unfolding is_private_target
is_private_target-bracketed h port l hp f e q =
    ap (λ t. is_private_parsed (parse_ip (strip_brackets (host_of_target (b'[' ∷ t)))))
      (sym (append_assoc h (b']' ∷ []) (b':' ∷ port)))
    ∙ ap (λ t. is_private_parsed (parse_ip (strip_brackets t)))
        (host_of_target-port (b'[' ∷ (h ++ (b']' ∷ []))) port hp)
    ∙ ap (λ t. is_private_parsed (parse_ip t)) (strip_brackets_both h f e)
    ∙ ap is_private_parsed q
