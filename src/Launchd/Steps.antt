-- ===== src/Launchd/Steps.antt =====
-- One step of the chains of launchd.rs, and what it means that it is done.
use ferro_vela.Prelude.{
  ◌≡◌, refl, sym, ap, subst, Bool, true, false, Option, none, some, List, [], ◌∷◌, ◌++◌,
}
use ferro_vela.Text.{Str}
use ferro_vela.Launchd.{Action, launchctl, History, Output, Os, LaunchError, Launched, ok, err}
use ferro_vela.Launchd.Control.{
  M, act, bind_result, outcome_or_err, output_or_err, run_launchctl, ◌>>=◌, ◌>>◌,
}

-- Inversion of a chain that ends well.
pub then_done :
    {A B : Type 0} (m : M A) (f : A → M B) (h : History) {b : B} {h' : History}
    → (m >>= f) h ≡ (ok b, h')
    → (a : A) × (between : History) × (m h ≡ (ok a, between)) × (f a between ≡ (ok b, h'))
unfolding ◌>>=◌
then_done {A} {B} m f h {b} {h'} e = go (m h) refl e
  where
    go :
        (r : Launched A × History)
        → m h ≡ r
        → bind_result f r ≡ (ok b, h')
        → (a : A) × (between : History) × (m h ≡ (ok a, between)) × (f a between ≡ (ok b, h'))
    go (ok a, h1) q e' = (a, h1, q, e')
    go (err x, h1) q e' = cc

pub step_done :
    {B : Type 0} (m : M (Unit {0})) (rest : M B) (h : History) {b : B} {h' : History}
    → (m >> rest) h ≡ (ok b, h')
    → (between : History) × (m h ≡ (ok tt, between)) × (rest between ≡ (ok b, h'))
unfolding ◌>>◌
step_done m rest h e = let (_, between, p, q) = then_done m (λ _. rest) h e in (between, p, q)

-- And how one is put together.
pub done_then :
    {A B : Type 0} (m : M A) (f : A → M B) (h : History) {a : A} {between : History}
    → m h ≡ (ok a, between)
    → (m >>= f) h ≡ f a between
unfolding ◌>>=◌
done_then m f h e = rw e refl

pub done_step :
    {B : Type 0} (m : M (Unit {0})) (rest : M B) (h : History) {between : History}
    → m h ≡ (ok tt, between)
    → (m >> rest) h ≡ rest between
unfolding ◌>>◌
done_step m rest h e = done_then m (λ _. rest) h e

ok_output : (o : Option Output) {out : Output} → output_or_err o ≡ ok out → o ≡ some out
unfolding output_or_err
ok_output none e = cc
ok_output (some o) e = cc

ok_outcome : (b : Bool) (x : LaunchError) → outcome_or_err b x ≡ ok tt → b ≡ true
unfolding outcome_or_err
ok_outcome true x e = refl
ok_outcome false x e = cc

module _ (os : Os) where
  -- launchctl is run once, and gives this output.
  abbrev pub Ran : List Str → Output → History → History → Type 0
  Ran args out h h' = (h' ≡ h ++ (launchctl args ∷ [])) × (os.output h' ≡ some out)

  -- An action of the file system is done.
  abbrev pub Did : Action → History → History → Type 0
  Did a h h' = (h' ≡ h ++ (a ∷ [])) × (os.outcome h' ≡ true)

  module _ (h : History) {h' : History} where
    pub ran :
        (args : List Str) {out : Output}
        → run_launchctl os args h ≡ (ok out, h')
        → Ran args out h h'
    unfolding run_launchctl
    ran args {out} e =
        let same : h' ≡ h ++ (launchctl args ∷ []) = sym (ap (λ p. p.1) e) in
        (same, subst (λ l. os.output l ≡ some out) (sym same) (ok_output _ (ap (λ p. p.0) e)))

    pub Ran-back :
        (args : List Str) {out : Output}
        → Ran args out h h'
        → run_launchctl os args h ≡ (ok out, h')
    unfolding run_launchctl output_or_err
    Ran-back args r = rw (← r.0) (rw (r.1) refl)

    pub did : (a : Action) (x : LaunchError) → act os a x h ≡ (ok tt, h') → Did a h h'
    unfolding act
    did a x e =
        let same : h' ≡ h ++ (a ∷ []) = sym (ap (λ p. p.1) e) in
        (same, subst (λ l. os.outcome l ≡ true) (sym same) (ok_outcome _ x (ap (λ p. p.0) e)))

    pub Did-back : (a : Action) (x : LaunchError) → Did a h h' → act os a x h ≡ (ok tt, h')
    unfolding act outcome_or_err
    Did-back a x d = rw (← d.0) (rw (d.1) refl)
