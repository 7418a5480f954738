-- ===== src/Launchd/Registration.antt =====
-- Phase A and B of `start`, and `bootout_service`: the service is registered, and kicked off.
use ferro_vela.Prelude.{
  ◌≡◌, refl, ap, ◌∙◌, subst, ◌⊎◌, inl, inr, Bool, true, false, ◌||◌, [], ◌∷◌, if◌then◌else◌,
  Bool-cases,
}
use ferro_vela.Text.{Str, codes}
use ferro_vela.Launchd.{History, Output, Os, LaunchError, Launched, ok, err}
use ferro_vela.Launchd.Control.{
  bootout_result, bootout_service, bootstrap, bootstrap_args, check_bootstrap, check_rebootstrap,
  clear_stale, kickstart, lift, map_stale, rebootstrap, run_launchctl, service, stderr_of,
}
use ferro_vela.Text.Match.{contains}
use ferro_vela.Launchd.Steps.{Ran, ran, Ran-back, then_done, step_done, done_then, done_step}

gone_text :
    (m : Bool) (e : LaunchError)
    → ◌≡◌ {A = Launched (Unit {0})} (if m then ok tt else err e) (ok tt)
    → m ≡ true
gone_text true e h = refl
gone_text false e h = cc

stale_done :
    (r : Launched (Unit {0}) × History) {h' : History} → map_stale r ≡ (ok tt, h') → r ≡ (ok tt, h')
stale_done (ok u, h) e = e
stale_done (err x, h) e = cc

module _ (os : Os) where
  abbrev pub IsGone : Output → Type 0
  IsGone out =
      (out.success ≡ true)
      ⊎ ((out.success ≡ false)
          × ((contains (stderr_of os out) (codes "3:")
                || contains (stderr_of os out) (codes "No such process"))
              ≡ true))

  -- The service is registered: at once, or after error 37 and the removal of the old registration.
  pub data Registered (h h' : History) : Type 0 where
    at_once :
        (out : Output) → Ran os (bootstrap_args os) out h h' → out.success ≡ true → Registered h h'
    after_removal :
        (first removal second : Output) (h1 h2 : History)
        → Ran os (bootstrap_args os) first h h1
        → first.success ≡ false
        → contains (stderr_of os first) (codes "37:") ≡ true
        → Ran os (codes "bootout" ∷ service os ∷ []) removal h1 h2
        → IsGone removal
        → Ran os (bootstrap_args os) second h2 h'
        → second.success ≡ true
        → Registered h h'

  same_history :
      {h h' : History} (r : Launched (Unit {0})) → lift r h ≡ (ok tt, h') → (r ≡ ok tt) × (h ≡ h')
  unfolding lift
  same_history r e = (ap (λ p. p.0) e, ap (λ p. p.1) e)

  gone : (out : Output) → bootout_result os out ≡ ok tt → IsGone out
  gone out e = elim (Bool-cases out.success) [
    | inl s ↦ inl s
    | inr f ↦ inr (f, gone_text _ _ (rw f at e))
  ]

  pub gone_back : (out : Output) → IsGone out → bootout_result os out ≡ ok tt
  gone_back out (inl s) = rw s refl
  gone_back out (inr (f, m)) = rw f (rw m refl)

  pub removed :
      (name : Str) (h : History) {h' : History}
      → bootout_service os name h ≡ (ok tt, h')
      → (out : Output) × Ran os (codes "bootout" ∷ name ∷ []) out h h' × IsGone out
  unfolding bootout_service
  removed name h {h'} e =
      let (out, h1, r, q) =
        then_done (run_launchctl os (codes "bootout" ∷ name ∷ [])) (λ o. lift (bootout_result os o))
          h e in
      let (fine, same) = same_history (bootout_result os out) q in
      (
        out,
        subst (λ l. Ran os (codes "bootout" ∷ name ∷ []) out h l) same (ran os h _ r),
        gone out fine,
      )

  pub removed_back :
      (name : Str) (h : History) {h' : History} (out : Output)
      → Ran os (codes "bootout" ∷ name ∷ []) out h h'
      → IsGone out
      → bootout_service os name h ≡ (ok tt, h')
  unfolding bootout_service lift
  removed_back name h {h'} out r g =
      done_then (run_launchctl os (codes "bootout" ∷ name ∷ [])) (λ o. lift (bootout_result os o)) h
        (Ran-back os h _ r)
      ∙ ap (λ (x : Launched (Unit {0})). (x, h')) (gone_back out g)

  cleared :
      (h : History) {h' : History}
      → clear_stale os h ≡ (ok tt, h')
      → bootout_service os (service os) h ≡ (ok tt, h')
  unfolding clear_stale
  cleared h e = stale_done (bootout_service os (service os) h) e

  again :
      (first : Output) (h h1 : History) {h' : History}
      → Ran os (bootstrap_args os) first h h1
      → first.success ≡ false
      → contains (stderr_of os first) (codes "37:") ≡ true
      → rebootstrap os h1 ≡ (ok tt, h')
      → Registered h h'
  unfolding rebootstrap check_rebootstrap
  again first h h1 r f m e =
      let (h2, c, rest) = step_done (clear_stale os) _ h1 e in
      let (removal, out, g) = removed (service os) h1 (cleared h1 c) in
      let (second, h3, boot, q) =
        then_done (run_launchctl os (bootstrap_args os)) (check_rebootstrap os) h2 rest in
      let (fine, same) = same_history _ q in
      after_removal first removal second h1 h2 r f m out g
        (subst (λ l. Ran os (bootstrap_args os) second h2 l) same (ran os h2 _ boot))
        (gone_text second.success _ fine)

  boots :
      (out : Output) (h h1 : History) {h' : History}
      → Ran os (bootstrap_args os) out h h1
      → check_bootstrap os out h1 ≡ (ok tt, h')
      → Registered h h'
  unfolding check_bootstrap
  boots out h h1 r e = elim (Bool-cases out.success) [
    | inl s ↦
        let (_, same) = same_history (ok tt) (rw s at e) in
        at_once out (subst (λ l. Ran os (bootstrap_args os) out h l) same r) s
    | inr f ↦ elim (Bool-cases (contains (stderr_of os out) (codes "37:"))) [
      | inl m ↦ again out h h1 r f m (rw (f, m) at e)
      | inr m ↦ cc (same_history (err _) (rw (f, m) at e)).0
    ]
  ]

  pub registered : (h : History) {h' : History} → bootstrap os h ≡ (ok tt, h') → Registered h h'
  unfolding bootstrap
  registered h e =
      let (out, h1, r, q) =
        then_done (run_launchctl os (bootstrap_args os)) (check_bootstrap os) h e in
      boots out h h1 (ran os h _ r) q

  again_back :
      (first removal second : Output) (h h1 h2 : History) {h' : History}
      → Ran os (bootstrap_args os) first h h1
      → first.success ≡ false
      → contains (stderr_of os first) (codes "37:") ≡ true
      → Ran os (codes "bootout" ∷ service os ∷ []) removal h1 h2
      → IsGone removal
      → Ran os (bootstrap_args os) second h2 h'
      → second.success ≡ true
      → rebootstrap os h1 ≡ (ok tt, h')
  unfolding rebootstrap check_rebootstrap clear_stale lift
  again_back first removal second h h1 h2 {h'} r f m out g r2 s =
      done_step (clear_stale os) _ h1 (ap map_stale (removed_back (service os) h1 removal out g))
      ∙ (done_then (run_launchctl os (bootstrap_args os)) (check_rebootstrap os) h2
            (Ran-back os h2 _ r2)
          ∙ rw s refl)

  pub registered_back :
      (h : History) {h' : History} → Registered h h' → bootstrap os h ≡ (ok tt, h')
  unfolding bootstrap check_bootstrap lift
  registered_back h (at_once out r s) =
      done_then (run_launchctl os (bootstrap_args os)) (check_bootstrap os) h (Ran-back os h _ r)
      ∙ rw s refl
  registered_back h (after_removal first removal second h1 h2 r f m out g r2 s) =
      done_then (run_launchctl os (bootstrap_args os)) (check_bootstrap os) h (Ran-back os h _ r)
      ∙ rw (f, m) (again_back first removal second h h1 h2 r f m out g r2 s)

  pub kicked_off :
      (h : History) {h' : History}
      → kickstart os h ≡ (ok tt, h')
      → (out : Output) × Ran os (codes "kickstart" ∷ service os ∷ []) out h h'
        × (out.success ≡ true)
  unfolding kickstart
  kicked_off h {h'} e =
      let (out, h1, r, q) =
        then_done (run_launchctl os (codes "kickstart" ∷ service os ∷ [])) _ h e in
      let (fine, same) = same_history _ q in
      (
        out,
        subst (λ l. Ran os (codes "kickstart" ∷ service os ∷ []) out h l) same (ran os h _ r),
        gone_text out.success _ fine,
      )

  pub kicked_back :
      (h : History) {h' : History} (out : Output)
      → Ran os (codes "kickstart" ∷ service os ∷ []) out h h'
      → out.success ≡ true
      → kickstart os h ≡ (ok tt, h')
  unfolding kickstart lift
  kicked_back h out r s =
      done_then (run_launchctl os (codes "kickstart" ∷ service os ∷ [])) _ h (Ran-back os h _ r)
      ∙ rw s refl
