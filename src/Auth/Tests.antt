-- ===== src/Auth/Tests.antt =====
-- Services by functions, on which the theorems of the authentication are applied.
use ferro_vela.Prelude.{true, suc, [], ◌≡◌, ◌↔◌, some, refl, All, ◌∷◌, none, ℕ}
use ferro_vela.Auth.{
  token, ntlm_session, step, challenged, Services, complete, ntlm_step, failed, ipv6, ntlm,
  NtlmCredentials, create_session,
}
use ferro_vela.Auth.Sessions.{NtlmMove, ntlm_step_iff}
use ferro_vela.Auth.Schemes.{answered, conversation-scheme_of, begun}
use ferro_vela.Text.Utf8.{Bytes}
use ferro_vela.Text.{codes}
use ferro_vela.Text.Match.{starts_with}

-- The encodings are the identity; one password, and one message of each type of NTLM.
abbrev pub test_services : Services
test_services = record {
  encode = λ b. b;
  decode = λ t. some t;
  parse_url = λ t. some (record { host = some (ipv6 (codes "::1")); port = some 3128 });
  get_password = λ name. some (codes "secret");
  ntlm_negotiate = λ d w. some (codes "type1");
  NtlmChallenge = Bytes;
  ntlm_read = λ b. some (some b);
  ntlm_respond = λ m u p d w. some (codes "type3");
  GssContext = ℕ;
  gss_context = λ service. some 0;
  gss_step = λ n input. (some (some (codes "gss")), suc n);
}

abbrev pub ada : NtlmCredentials
ada = record {
  username = codes "ada";
  password = codes "pw";
  domain = codes "CORP";
  workstation = [];
}

ntlm_step_iff_example :
    (ntlm_step test_services ada challenged (some (codes "NTLM type2"))
      ≡ token (codes "NTLM type3") (ntlm_session ada complete))
    ↔ NtlmMove test_services ada challenged
        (some (codes "NTLM type2"))
        (codes "NTLM type3")
        complete
ntlm_step_iff_example =
    ntlm_step_iff test_services ada challenged (some (codes "NTLM type2")) (codes "NTLM type3")
      complete

type_2_is_answered :
    (ntlm_step test_services ada challenged (some (codes "NTLM type2"))
      ≡ token (codes "NTLM type3") (ntlm_session ada complete))
    × (ntlm_step test_services ada challenged (some (codes "Basic realm")) ≡ failed)
    × (ntlm_step test_services ada challenged none ≡ failed)
unfolding ntlm_step
type_2_is_answered = (refl, refl, refl)

first_token :
    step test_services (create_session test_services (ntlm ada)) none
    ≡ token (codes "NTLM type1") (ntlm_session ada challenged)
unfolding step create_session
first_token = refl

conversation-scheme_of_example :
    All (λ t. starts_with t (codes "NTLM ") ≡ true) (codes "NTLM type1" ∷ [])
conversation-scheme_of_example =
    conversation-scheme_of test_services (ntlm ada) (ntlm_session ada challenged)
      (codes "NTLM type1" ∷ []) (answered none first_token begun)
