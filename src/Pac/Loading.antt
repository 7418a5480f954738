-- ===== src/Pac/Loading.antt =====
-- How a script is loaded: `fetch_pac_script`, `resolve_pac_path`, `validate_pac_script` and
-- `PacEngine::new` of pac.rs.
use ferro_vela.Prelude.{
  ℕ, ◌*◌, Bool, true, false, not, Option, none, some, ltb, if◌then◌else◌, length, any,
}
use ferro_vela.Text.{Str, codes, str_eq}
use ferro_vela.Text.Utf8.{Bytes, from_utf8}
use ferro_vela.Text.Match.{starts_with}
use ferro_vela.Text.Split.{split_char}

-- The errors, by the place that makes them.
pub data LoadError : Type 0 where
  no_client not_fetched body_unread not_utf8 : LoadError
  parent_component not_resolved no_metadata not_a_file file_unread : LoadError
  no_runtime no_context not_registered syntax_error no_find_proxy not_spawned : LoadError
  length_too_large too_large : ℕ → LoadError

pub data Loaded {ℓ} (A : Type ℓ) : Type ℓ where
  ok : A → Loaded A
  err : LoadError → Loaded A

infixl 5 ◌>>=◌ ◌>>◌
unfoldable pub ◌>>=◌ {ℓ κ} : {A : Type ℓ} {B : Type κ} → Loaded A → (A → Loaded B) → Loaded B
ok a >>= f = f a
err e >>= f = err e

unfoldable pub ◌>>◌ {ℓ} : {B : Type ℓ} → Loaded (Unit {0}) → Loaded B → Loaded B
unfolding ◌>>=◌
m >> rest = m >>= λ _. rest

-- `.context(..)?`.
unfoldable pub context {ℓ} : {A : Type ℓ} → Option A → LoadError → Loaded A
context none e = err e
context (some a) e = ok a

-- `if .. { bail!(..) }`.
unfoldable pub bail_if : Bool → LoadError → Loaded (Unit {0})
bail_if true e = err e
bail_if false e = ok tt

abbrev pub pac_max_bytes : ℕ
pac_max_bytes = 1024 * 1024

-- What an HTTP server answers: the length that the headers announce, and the body, if it comes.
pub record Response : Type 0 where
  pub content_length : Option ℕ
  pub body : Option Bytes

-- The crates reqwest and rquickjs, the file system and the number of cores. `builds` says whether a
-- client can be made, `get` what comes back. `has_runtime`, `has_context` and `registers` are the steps
-- in front of a script, `evaluates` whether it runs without an exception, and `defines` whether it then
-- has a function of this name.
pub record World : Type 0 where
  pub builds : Bool
  pub get : Str → Option Response
  pub canonicalize : Str → Option Str
  pub is_file : Str → Option Bool
  pub read : Str → Option Bytes
  pub has_runtime : Bool
  pub has_context : Bool
  pub registers : Bool
  pub evaluates : Str → Bool
  pub defines : Str → Str → Bool
  pub available_parallelism : Option ℕ
  pub spawns : Bool

-- The pool that `PacEngine::new` leaves: a script and the workers that run it, each with a channel.
pub record PacEngine : Type 0 where
  pub script : Str
  pub num_workers : ℕ
  pub capacity : ℕ
  pub next_worker : ℕ

-- `Path::components` has a `ParentDir` for each piece between slashes that is `..`.
unfoldable pub has_parent_component : Str → Bool
unfolding split_char str_eq
has_parent_component path = any (λ piece. str_eq piece (codes "..")) (split_char b'/' path)

-- `available_parallelism().map(|n| n.get().min(4)).unwrap_or(2)`.
abbrev pub workers_for : Option ℕ → ℕ
workers_for none = 2
workers_for (some n) = if ltb n 4 then n else 4

module _ (w : World) where
  abbrev pub sized_length : Option ℕ → Loaded (Unit {0})
  sized_length none = ok tt
  sized_length (some len) = bail_if (ltb pac_max_bytes len) (length_too_large len)

  unfoldable pub fetch_pac_script : Str → Loaded Str
  unfolding from_utf8
  fetch_pac_script url = do
    bail_if (not w.builds) no_client
    response ← context (w.get url) not_fetched
    sized_length response.content_length
    bytes ← context response.body body_unread
    bail_if (ltb pac_max_bytes (length bytes)) (too_large (length bytes))
    context (from_utf8 bytes) not_utf8

  unfoldable pub resolve_pac_path : Str → Loaded Str
  unfolding has_parent_component
  resolve_pac_path path = do
    bail_if (has_parent_component path) parent_component
    canonical ← context (w.canonicalize path) not_resolved
    is_file ← context (w.is_file canonical) no_metadata
    bail_if (not is_file) not_a_file
    ok canonical

  unfoldable pub validate_pac_script : Str → Loaded (Unit {0})
  validate_pac_script script = do
    bail_if (not w.has_runtime) no_runtime
    bail_if (not w.has_context) no_context
    bail_if (not w.registers) not_registered
    bail_if (not (w.evaluates script)) syntax_error
    bail_if (not (w.defines script (codes "FindProxyForURL"))) no_find_proxy

  unfoldable pub read_local_script : Str → Loaded Str
  unfolding resolve_pac_path from_utf8
  read_local_script path = do
    canonical ← resolve_pac_path path
    bytes ← context (w.read canonical) file_unread
    bail_if (ltb pac_max_bytes (length bytes)) (too_large (length bytes))
    context (from_utf8 bytes) not_utf8

  unfoldable pub load_script : Str → Loaded Str
  unfolding starts_with fetch_pac_script read_local_script
  load_script pac_url_or_path =
      if starts_with pac_url_or_path (codes "http")
      then fetch_pac_script pac_url_or_path
      else read_local_script pac_url_or_path

  -- `PacEngine::new`.
  unfoldable pub new_engine : Str → Loaded PacEngine
  unfolding load_script validate_pac_script
  new_engine pac_url_or_path = do
    script ← load_script pac_url_or_path
    validate_pac_script script
    bail_if (not w.spawns) not_spawned
    ok (record {
      script = script;
      num_workers = workers_for w.available_parallelism;
      capacity = 32;
      next_worker = 0;
    })
