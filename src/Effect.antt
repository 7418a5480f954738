-- ===== src/Effect.antt =====
-- How a call ends. A slice outside a text panics, which ends the task; a task on a socket may also
-- fail with an error value, or wait for bytes that have not come.
use ferro_vela.Prelude.{ℕ, ◌≡◌, refl, Option, none, some}

pub data Outcome {ℓ} (A : Type ℓ) : Type ℓ where
  returns : A → Outcome A
  panics : Outcome A

-- The errors of the tunnel, by the place that makes them; `read_error` and `write_error` come from
-- the socket, `session_error` from the authentication session.
pub data Failure : Type 0 where
  closed_early too_large no_status read_error write_error connect_error no_token : Failure
  exhausted session_error : Failure
  refused : ℕ → Failure
  out_of_fuel : Failure

-- `panicked` is the panic of a task, `pending` a read that is never answered.
pub data Io {ℓ} (A : Type ℓ) : Type ℓ where
  done : A → Io A
  fail : Failure → Io A
  pending : Io A
  panicked : Io A

infixl 5 ◌>>=◌
abbrev pub ◌>>=◌ {ℓ κ} : {A : Type ℓ} {B : Type κ} → Io A → (A → Io B) → Io B
done a >>= f = f a
fail e >>= f = fail e
pending >>= f = pending
panicked >>= f = panicked

abbrev pub from_option {ℓ} : {A : Type ℓ} → Failure → Option A → Io A
from_option e none = fail e
from_option e (some a) = done a

abbrev pub from_outcome {ℓ} : {A : Type ℓ} → Outcome A → Io A
from_outcome (returns a) = done a
from_outcome panics = panicked

-- Inversion of a bind that is done.
pub >>=-eq-done {ℓ κ} :
    {A : Type ℓ} {B : Type κ} (m : Io A) (f : A → Io B) {b : B}
    → (m >>= f) ≡ done b
    → (a : A) × (m ≡ done a) × (f a ≡ done b)
>>=-eq-done (done a) f h = (a, refl, h)
>>=-eq-done (fail e) f h = cc
>>=-eq-done pending f h = cc
>>=-eq-done panicked f h = cc
