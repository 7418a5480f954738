-- ===== src/Launchd/Stops.antt =====
-- What `stop` takes for a service that is already gone.
use ferro_vela.Prelude.{◌≡◌, refl, ap, inr, true, false, some, [], ◌∷◌, ◌++◌, arith}
use ferro_vela.Text.{Str, codes}
use ferro_vela.Launchd.{Os, History, Output, launchctl, ok}
use ferro_vela.Launchd.Control.{service, stderr_of, stop}
use ferro_vela.Launchd.Registration.{removed_back}
use ferro_vela.Text.Match.{contains, starts_with-append}

contains-append : (front pat back : Str) → contains (front ++ (pat ++ back)) pat ≡ true
unfolding contains
contains-append [] [] [] = refl
contains-append [] [] (c ∷ back) = rw (starts_with-append [] (c ∷ back)) refl
contains-append [] (c ∷ pat) back = rw (starts_with-append (c ∷ pat) back) refl
contains-append (c ∷ front) pat back = rw (contains-append front pat back) (ground arith)

module _ (os : Os) (h : History) (out : Output) (front back : Str) where
  -- `stop` reports success for every failure of launchctl whose message has `3:` anywhere in it, such as
  -- the errors 13, 113 or 133, though the comment speaks of error 3 alone.
  pub stop-mistaken :
      os.output (h ++ (launchctl (codes "bootout" ∷ service os ∷ []) ∷ [])) ≡ some out
      → out.success ≡ false
      → stderr_of os out ≡ front ++ (codes "3:" ++ back)
      → (stop os h).0 ≡ ok tt
  unfolding stop
  stop-mistaken given failed message =
      ap (λ r. r.0)
        (removed_back os (service os) h out (refl, given)
          (inr (failed, rw (message, contains-append front (codes "3:") back) refl)))
