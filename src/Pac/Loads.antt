-- ===== src/Pac/Loads.antt =====
-- What an engine that was made has gone through, and what is refused.
use ferro_vela.Prelude.{
  ℕ, ◌≤◌, ◌≡◌, refl, ap, ◌∙◌, subst, ◌⊎◌, inl, inr, Bool, true, false, not, Option, none, some,
  arith, ltb, Bool-cases, length,
}
use ferro_vela.Text.{Str, codes}
use ferro_vela.Pac.Loading.{
  workers_for, World, PacEngine, has_parent_component, fetch_pac_script, resolve_pac_path,
  validate_pac_script, read_local_script, load_script, new_engine, sized_length, Loaded, ok, err,
  ◌>>=◌, ◌>>◌, context, bail_if, LoadError, pac_max_bytes, too_large, not_utf8, Response,
}
use ferro_vela.Text.Match.{starts_with}
use ferro_vela.Text.Utf8.{Bytes, from_utf8, as_bytes, as_bytes-from_utf8}

-- Inversion of the steps of a chain that ends well.
then_ok {ℓ κ} :
    {A : Type ℓ} {B : Type κ} (m : Loaded A) (f : A → Loaded B) {b : B}
    → (m >>= f) ≡ ok b
    → (a : A) × (m ≡ ok a) × (f a ≡ ok b)
unfolding ◌>>=◌
then_ok (ok a) f h = (a, refl, h)
then_ok (err e) f h = cc

context_ok {ℓ κ} :
    {A : Type ℓ} {B : Type κ} (o : Option A) (e : LoadError) (f : A → Loaded B) {b : B}
    → (context o e >>= f) ≡ ok b
    → (a : A) × (o ≡ some a) × (f a ≡ ok b)
unfolding ◌>>=◌ context
context_ok none e f h = cc
context_ok (some a) e f h = (a, refl, h)

bail_ok {ℓ} :
    {B : Type ℓ} (t : Bool) (e : LoadError) (m : Loaded B) {b : B}
    → (bail_if t e >> m) ≡ ok b
    → (t ≡ false) × (m ≡ ok b)
unfolding bail_if ◌>>◌
bail_ok true e m h = cc
bail_ok false e m h = (refl, h)

not-false : (b : Bool) → not b ≡ false → b ≡ true
not-false true h = refl
not-false false h = cc

context-some {ℓ} :
    {A : Type ℓ} (o : Option A) (e : LoadError) {a : A} → context o e ≡ ok a → o ≡ some a
unfolding context
context-some none e h = cc
context-some (some a) e h = cc

fits : (len n : ℕ) → ltb pac_max_bytes len ≡ false → some len ≡ some n → n ≤ pac_max_bytes
fits len n h e = ground arith

small_enough : (n : ℕ) → ltb pac_max_bytes n ≡ false → n ≤ pac_max_bytes
small_enough n h = ground arith

-- The end of both ways to read a script: its bytes are no more than the limit.
bytes_read :
    (bytes : Bytes) {script : Str}
    → (bail_if (ltb pac_max_bytes (length bytes)) (too_large (length bytes))
        >> context (from_utf8 bytes) not_utf8)
      ≡ ok script
    → (as_bytes script ≡ bytes) × (length bytes ≤ pac_max_bytes)
bytes_read bytes h =
    let (small, q) = bail_ok _ _ _ h in
    (as_bytes-from_utf8 bytes (context-some _ _ q), small_enough _ small)

ok_inj {ℓ} : {A : Type ℓ} {a b : A} → ok a ≡ ok b → a ≡ b
ok_inj h = cc

workers-le_four : (cores : Option ℕ) → workers_for cores ≤ 4
workers-le_four none = omega arith
workers-le_four (some n) = ground arith

not_bailed : (t : Bool) (e : LoadError) → bail_if t e ≡ ok tt → t ≡ false
unfolding bail_if
not_bailed true e h = cc
not_bailed false e h = refl

checked {ℓ} :
    {B : Type ℓ} (m : Loaded (Unit {0})) (rest : Loaded B) {b : B}
    → (m >> rest) ≡ ok b
    → (m ≡ ok tt) × (rest ≡ ok b)
unfolding ◌>>◌
checked (ok tt) rest h = (refl, h)
checked (err e) rest h = cc

module _ (w : World) where
  -- Where the bytes of a script come from.
  abbrev pub Fetched : Str → Str → Type 0
  Fetched url script =
      (r : Response) × (w.get url ≡ some r)
      × (r.body ≡ some (as_bytes script))
      × ((len : ℕ) → r.content_length ≡ some len → len ≤ pac_max_bytes)

  abbrev pub ReadFrom : Str → Str → Type 0
  ReadFrom path script =
      (file : Str) × (has_parent_component path ≡ false)
      × (w.canonicalize path ≡ some file)
      × (w.is_file file ≡ some true)
      × (w.read file ≡ some (as_bytes script))

  abbrev pub Fits : Str → Type 0
  Fits script = length (as_bytes script) ≤ pac_max_bytes

  sized :
      (len : Option ℕ) (m : Loaded Str) {script : Str}
      → (sized_length w len >> m) ≡ ok script
      → ((n : ℕ) → len ≡ some n → n ≤ pac_max_bytes) × (m ≡ ok script)
  unfolding ◌>>◌
  sized none m h = (λ n e. cc, h)
  sized (some len) m h = let (small, q) = bail_ok _ _ _ h in (λ n e. fits len n small e, q)

  fetched :
      (url : Str) {script : Str}
      → fetch_pac_script w url ≡ ok script
      → Fetched url script × Fits script
  unfolding fetch_pac_script
  fetched url h =
      let (_, h1) = bail_ok _ _ _ h in
      let (r, got, h2) = context_ok _ _ _ h1 in
      let (announced, h3) = sized r.content_length _ h2 in
      let (bytes, body, h4) = context_ok _ _ _ h3 in
      let (same, fit) = bytes_read bytes h4 in ((r, got, rw same body, announced), rw same fit)

  resolved_path :
      (path : Str) {file : Str}
      → resolve_pac_path w path ≡ ok file
      → (has_parent_component path ≡ false)
        × (w.canonicalize path ≡ some file)
        × (w.is_file file ≡ some true)
  unfolding resolve_pac_path
  resolved_path path h =
      let (up, h2) = bail_ok _ _ _ h in
      let (canonical, found, h3) = context_ok _ _ _ h2 in
      let (regular, meta, h4) = context_ok _ _ _ h3 in
      let (kind, h5) = bail_ok _ _ _ h4 in
      (
        up,
        subst (λ c. w.canonicalize path ≡ some c) (ok_inj h5) found,
        subst (λ c. w.is_file c ≡ some true) (ok_inj h5) (meta ∙ ap some (not-false regular kind)),
      )

  local_read :
      (path : Str) {script : Str}
      → read_local_script w path ≡ ok script
      → ReadFrom path script × Fits script
  unfolding read_local_script
  local_read path h =
      let (file, resolved, h1) = then_ok (resolve_pac_path w path) _ h in
      let (bytes, content, h2) = context_ok _ _ _ h1 in
      let (same, fit) = bytes_read bytes h2 in
      let (up, found, regular) = resolved_path path resolved in
      ((file, up, found, regular, rw same content), rw same fit)

  -- A script that is fetched, or read.
  abbrev pub CameFrom : Str → Str → Type 0
  CameFrom path script =
      ((starts_with path (codes "http") ≡ true) × Fetched path script)
      ⊎ ((starts_with path (codes "http") ≡ false) × ReadFrom path script)

  loaded :
      (path : Str) {script : Str}
      → load_script w path ≡ ok script
      → CameFrom path script × Fits script
  unfolding load_script
  loaded path h = elim (Bool-cases (starts_with path (codes "http"))) [
    | inl remote ↦ let (from, fit) = fetched path (rw remote at h) in (inl (remote, from), fit)
    | inr local ↦ let (from, fit) = local_read path (rw local at h) in (inr (local, from), fit)
  ]

  runs_of :
      (script : Str)
      → validate_pac_script w script ≡ ok tt
      → (w.evaluates script ≡ true) × (w.defines script (codes "FindProxyForURL") ≡ true)
  unfolding validate_pac_script
  runs_of script h =
      let (_, h1) = bail_ok _ _ _ h in
      let (_, h2) = bail_ok _ _ _ h1 in
      let (_, h3) = bail_ok _ _ _ h2 in
      let (runs, h4) = bail_ok _ _ _ h3 in (not-false _ runs, not-false _ (not_bailed _ _ h4))

  abbrev pub IsMade : Str → PacEngine → Type 0
  IsMade path engine =
      CameFrom path engine.script
      × Fits engine.script
      × (w.evaluates engine.script ≡ true)
      × (w.defines engine.script (codes "FindProxyForURL") ≡ true)
      × (engine.num_workers ≤ 4)

  -- An engine that was made has a script of at most 1 MiB that runs and defines `FindProxyForURL`, and
  -- at most four workers. The script is the body that came back for a path that begins with `http`,
  -- which announced no larger length; for any other path it is the content of a regular file, to which
  -- the path leads without a component `..`.
  pub new_engine-CameFrom :
      (path : Str) {engine : PacEngine} → new_engine w path ≡ ok engine → IsMade path engine
  unfolding new_engine
  new_engine-CameFrom path h =
      let (script, h1, h2) = then_ok (load_script w path) _ h in
      let (from, fit) = loaded path h1 in
      let (valid, h3) = checked _ _ h2 in
      let (runs, defined) = runs_of script valid in
      let (_, made) = bail_ok _ _ _ h3 in
      subst (IsMade path) (ok_inj made)
        (from, fit, runs, defined, workers-le_four w.available_parallelism)
