-- ===== src/Ui/Prompt.antt =====
-- crates/ferrovela-ui/src/ui/auth.rs: the sheet of the system that asks for the administrator, and what
-- `update` of ui/controller.rs makes of its answer.
use ferro_vela.Prelude.{
  ℕ, ◌+◌, ◌^◌, ◌≡◌, ◌↔◌, Bool, true, false, not, ◌||◌, Option, none, some, List, [], ◌∷◌, arith,
  ◌==◌, if◌then◌else◌,
}
use ferro_vela.Text.{Str, codes}

-- How the calls of the framework Security end: a status is 0 for success, and the first call may leave
-- no reference behind.
pub record Security : Type 0 where
  pub create_status : ℕ
  pub is_null : Bool
  pub copy_status : ℕ

pub data AuthCall : Type 0 where
  authorization_create : ℕ → AuthCall
  authorization_copy_rights : Str → ℕ → AuthCall
  authorization_free : ℕ → AuthCall

abbrev flag_defaults : ℕ
flag_defaults = 0

-- `K_AUTHORIZATION_FLAG_INTERACTION_ALLOWED | K_AUTHORIZATION_FLAG_EXTEND_RIGHTS`, and
-- `K_AUTHORIZATION_FLAG_DESTROY_RIGHTS`.
abbrev flags_ask : ℕ
flags_ask = 2 ^ 0 + 2 ^ 1

abbrev flag_destroy_rights : ℕ
flag_destroy_rights = 2 ^ 3

unfoldable pub request_advanced_unlock : Security → Bool × List AuthCall
request_advanced_unlock s =
    if not (s.create_status == 0) || s.is_null
    then (false, authorization_create flag_defaults ∷ [])
    else (
      s.copy_status == 0,
      authorization_create flag_defaults
          ∷ authorization_copy_rights (codes "system.preferences") flags_ask
          ∷ authorization_free flag_destroy_rights
          ∷ [],
    )

-- The background task of the sheet; none where the task panics.
unfoldable pub granted : Option Security → Bool
granted none = false
granted (some s) = (request_advanced_unlock s).0

-- The right is granted where both calls succeed.
granted_iff :
    (s : Security)
    → (granted (some s) ≡ true)
      ↔ ((s.create_status ≡ 0) × (s.is_null ≡ false) × (s.copy_status ≡ 0))
unfolding granted request_advanced_unlock
granted_iff s = ground arith
