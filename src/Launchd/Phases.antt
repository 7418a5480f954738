-- ===== src/Launchd/Phases.antt =====
-- The phases of `start`.
use ferro_vela.Prelude.{◌≡◌, sym, ap, ◌∙◌, subst, ◌↔◌, true, [], ◌∷◌}
use ferro_vela.Text.{Str, codes}
use ferro_vela.Launchd.Registration.{
  Registered, registered, registered_back, kicked_off, kicked_back,
}
use ferro_vela.Launchd.Looks.{Seen, alive, alive_back}
use ferro_vela.Launchd.{
  no_directory, History, Output, make_dir, write_file, generate_plist, plist_path, launch_agents,
  Os, ok,
}
use ferro_vela.Launchd.Control.{act, bootstrap, install, kickstart, lift, service, start}
use ferro_vela.Launchd.Steps.{Ran, Did, did, Did-back, then_done, step_done, done_then, done_step}

module _ (os : Os) where
  pub data Started (h h' : History) : Type 0 where
    started :
        (plist : Str) (h1 h2 h3 h4 : History) (kicked : Output)
        → generate_plist os ≡ ok plist
        → Did os (make_dir (launch_agents os)) h h1
        → Did os (write_file (plist_path os) plist) h1 h2
        → Registered os h2 h3
        → Ran os (codes "kickstart" ∷ service os ∷ []) kicked h3 h4
        → kicked.success ≡ true
        → Seen os h' 10 h4
        → Started h h'

  installed :
      (h : History) {h' : History}
      → install os h ≡ (ok tt, h')
      → (plist : Str) × (h1 : History) × (generate_plist os ≡ ok plist)
        × Did os (make_dir (launch_agents os)) h h1
        × Did os (write_file (plist_path os) plist) h1 h'
  unfolding install lift
  installed h {h'} e =
      let (plist, h0, g, q) = then_done (lift (generate_plist os)) _ h e in
      let (h1, d, w) = step_done (act os (make_dir (launch_agents os)) no_directory) _ h0 q in
      (
        plist,
        h1,
        ap (λ r. r.0) g,
        subst (λ l. Did os (make_dir (launch_agents os)) l h1) (sym (ap (λ r. r.1) g))
            (did os h0 _ _ d),
        did os h1 _ _ w,
      )

  installed_back :
      (h h1 : History) {h' : History} (plist : Str)
      → generate_plist os ≡ ok plist
      → Did os (make_dir (launch_agents os)) h h1
      → Did os (write_file (plist_path os) plist) h1 h'
      → install os h ≡ (ok tt, h')
  unfolding install lift
  installed_back h h1 plist g d w =
      done_then (lift (generate_plist os)) _ h (ap (λ r. (r, h)) g)
      ∙ (done_step (act os (make_dir (launch_agents os)) no_directory) _ h (Did-back os h _ _ d)
          ∙ Did-back os h1 _ _ w)

  start_back : (h : History) {h' : History} → Started h h' → start os h ≡ (ok tt, h')
  unfolding start
  start_back h (started plist h1 h2 h3 h4 out g d w b r s v) =
      done_step (install os) _ h (installed_back h h1 plist g d w)
      ∙ (done_step (bootstrap os) _ h2 (registered_back os h2 b)
          ∙ (done_step (kickstart os) _ h3 (kicked_back os h3 out r s) ∙ alive_back os h4 v))

  -- `start` succeeds by exactly these phases: the plist is written, the service is registered, at once or
  -- after error 37 and the removal of its old registration, kickstart succeeds, and within ten looks a
  -- process with a positive number is seen.
  pub start_iff : (h h' : History) → (start os h ≡ (ok tt, h')) ↔ Started h h'
  unfolding start
  start_iff h h' = (
    λ e.
        let (h2, i, e1) = step_done (install os) _ h e in
        let (plist, h1, g, d, w) = installed h i in
        let (h3, b, e2) = step_done (bootstrap os) _ h2 e1 in
        let (h4, k, v) = step_done (kickstart os) _ h3 e2 in
        let (out, r, s) = kicked_off os h3 k in
        started plist h1 h2 h3 h4 out g d w (registered os h2 b) r s (alive os h4 v),
    start_back h,
  )
