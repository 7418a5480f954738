-- ===== src/Launchd/Looks.antt =====
-- Phase C of `start`: a process with a positive number is seen.
use ferro_vela.Prelude.{
  ℕ, zero, suc, ◌<◌, ◌≡◌, refl, ap, ◌∙◌, subst, inl, inr, Option, none, some, List, [], ◌∷◌, ◌++◌,
  arith, Bool-cases, ◌>>=◌ as ◌>>=?◌,
}
use ferro_vela.Text.{Str, codes}
use ferro_vela.Launchd.{sleep, History, launchctl, Output, Os, ok}
use ferro_vela.Launchd.Control.{
  first_some, looked, pid, pid_in_line, pid_in_lines, pid_of, positive, require_pid, service,
  verify_alive, wait_for_pid,
}
use ferro_vela.Text.Match.{strip_prefix}
use ferro_vela.Text.Split.{trim}
use ferro_vela.Text.Number.{parse_uint, max_u32}

positive_lem : (o : Option ℕ) {n : ℕ} → positive o ≡ some n → 0 < n
positive_lem none e = cc
positive_lem (some n) e = ground arith

first_positive :
    (o later : Option ℕ) {n : ℕ}
    → (o ≡ some n → 0 < n)
    → (later ≡ some n → 0 < n)
    → first_some o later ≡ some n
    → 0 < n
first_positive (some m) later f g e = f e
first_positive none later f g e = g e

pid_in_line_positive : (l : Str) {n : ℕ} → pid_in_line l ≡ some n → 0 < n
unfolding pid_in_line
pid_in_line_positive l e =
    positive_lem (strip_prefix (trim l) (codes "pid = ") >>=? parse_uint max_u32) e

pid_in_lines_positive : (ls : List Str) {n : ℕ} → pid_in_lines ls ≡ some n → 0 < n
unfolding pid_in_lines
pid_in_lines_positive [] e = cc
pid_in_lines_positive (l ∷ ls) e =
    first_positive (pid_in_line l) _ (pid_in_line_positive l) (pid_in_lines_positive ls) e

pid_of_positive : (o : Option Output) {n : ℕ} → pid_of o ≡ some n → 0 < n
pid_of_positive none e = cc
pid_of_positive (some out) e = elim (Bool-cases out.success) [
  | inl s ↦ pid_in_lines_positive _ (rw s at e)
  | inr f ↦ cc (rw f at e)
]

pid_required :
    (r : Option ℕ × History) {h' : History}
    → require_pid r ≡ (ok tt, h')
    → (p : ℕ) × (r ≡ (some p, h'))
pid_required (none, h) e = cc (ap (λ q. q.0) e)
pid_required (some p, h) e = (p, ap (λ (l : History). (some p, l)) (ap (λ q. q.1) e))

module _ (os : Os) where
  -- A positive process number is seen within so many looks, with a pause behind each that shows none.
  pub data Seen (h' : History) : ℕ → History → Type 0 where
    now : {n : ℕ} {h : History} (p : ℕ) → pid os h ≡ (some p, h') → 0 < p → Seen h' (suc n) h
    next :
        {n : ℕ} {h : History} (h1 : History)
        → pid os h ≡ (none, h1)
        → Seen h' n (h1 ++ (sleep 50 ∷ []))
        → Seen h' (suc n) h

  pid_positive : (h : History) {p : ℕ} {h' : History} → pid os h ≡ (some p, h') → 0 < p
  unfolding pid
  pid_positive h e =
      pid_of_positive (os.output (h ++ (launchctl (codes "print" ∷ service os ∷ []) ∷ [])))
        (ap (λ r. r.0) e)

  looks :
      (n : ℕ) (h : History) {p : ℕ} {h' : History}
      → wait_for_pid os n 50 h ≡ (some p, h')
      → Seen h' n h
  unfolding wait_for_pid
  looks zero h e = cc (ap (λ q. q.0) e)
  looks (suc n) h {p} {h'} e = go (pid os h) refl (looks n ((pid os h).1 ++ (sleep 50 ∷ []))) e
    where
      go :
          (r : Option ℕ × History)
          → pid os h ≡ r
          → (wait_for_pid os n 50 ((pid os h).1 ++ (sleep 50 ∷ [])) ≡ (some p, h')
              → Seen h' n ((pid os h).1 ++ (sleep 50 ∷ [])))
          → looked r (wait_for_pid os n 50 ((pid os h).1 ++ (sleep 50 ∷ []))) ≡ (some p, h')
          → Seen h' (suc n) h
      go (some q, h1) s ih e' = now p (s ∙ e') (pid_positive h (s ∙ e'))
      go (none, h1) s ih e' =
          next h1 s (subst (λ l. Seen h' n (l ++ (sleep 50 ∷ []))) (ap (λ q. q.1) s) (ih e'))

  looks_back :
      {h' : History} {n : ℕ} {h : History}
      → Seen h' n h
      → (p : ℕ) × (wait_for_pid os n 50 h ≡ (some p, h')) × (0 < p)
  unfolding wait_for_pid
  looks_back (now {n} {h} p e l) =
      (p, ap (λ r. looked r (wait_for_pid os n 50 ((pid os h).1 ++ (sleep 50 ∷ [])))) e, l)
  looks_back (next {n} {h} h1 e s) =
      let (p, q, l) = looks_back s in
      (
        p,
        ap (λ (r : Option ℕ × History). looked r (wait_for_pid os n 50 (r.1 ++ (sleep 50 ∷ [])))) e
            ∙ q,
        l,
      )

  pub alive : (h : History) {h' : History} → verify_alive os h ≡ (ok tt, h') → Seen h' 10 h
  unfolding verify_alive
  alive h e = let (p, q) = pid_required (wait_for_pid os 10 50 h) e in looks 10 h q

  pub alive_back : (h : History) {h' : History} → Seen h' 10 h → verify_alive os h ≡ (ok tt, h')
  unfolding verify_alive
  alive_back h s = let (p, q, l) = looks_back s in ap require_pid q
