-- ===== src/Tests/Guards.antt =====
-- An analyst with a step-up of a minute ago, for packages/auth-lib/src/fraudnet/auth.
use fraudnet.Prelude.{
  ℕ, suc, ◌≡◌, refl, String, ◌==◌, if◌then◌else◌, none, some, List, [], ◌∷◌, ◌⊎◌,
}
use fraudnet.Auth.Principal.{
  fraud_analyst, fraud_lead, Role, Claims, number, extract_principal, roles_of,
}
use fraudnet.Auth.Routes.{
  Decoded, valid, invalid, Error, answered, raised, Handler, route, require_role, require_step_up,
  after_prefix, with_principal, token_error, step_up_required,
}
use fraudnet.Auth.Granted.{IsGranted, IsReason, guarded, guarded-IsGranted}

abbrev analyst : Claims
analyst = record {
  sub = some "u-1";
  tenant_id = none;
  realm_access = some record { roles = some (some ("offline_access" ∷ "FRAUD_ANALYST" ∷ [])) };
  step_up_at_ms = some (number 100000);
}

abbrev decode : String → Decoded
decode token = if token == "abc" then valid analyst else invalid

abbrev claim_alert : Handler ℕ String
claim_alert principal claimed = (answered principal.subject, suc claimed)

abbrev wanted : List Role
wanted = fraud_lead ∷ fraud_analyst ∷ []

abbrev strip : String → String
strip s = s

claimed :
    guarded strip decode wanted 160000 300000 claim_alert (some "Bearer abc") 0
    ≡ (answered "u-1", 1)
unfolding route with_principal require_role require_step_up after_prefix roles_of
claimed = refl

stale :
    guarded strip decode wanted 400001 300000 claim_alert (some "Bearer abc") 0
    ≡ (raised step_up_required, 0)
unfolding route with_principal require_role require_step_up after_prefix roles_of
stale = refl

unknown :
    guarded strip decode wanted 160000 300000 claim_alert (some "Bearer x") 0
    ≡ (raised token_error, 0)
unfolding route with_principal require_role require_step_up after_prefix roles_of
unknown = refl

guarded-IsGranted_example :
    ((claims : Claims) × IsGranted strip decode wanted 160000 300000 claim_alert
        (some "Bearer abc")
        claims
      × (guarded strip decode wanted 160000 300000 claim_alert (some "Bearer abc") 0
          ≡ claim_alert (extract_principal claims) 0))
    ⊎ (((claims : Claims)
          → ¬ IsGranted strip decode wanted 160000 300000 claim_alert (some "Bearer abc") claims)
        × (e : Error) × IsReason strip decode wanted 160000 300000 claim_alert (some "Bearer abc") e
        × (guarded strip decode wanted 160000 300000 claim_alert (some "Bearer abc") 0
            ≡ (raised e, 0)))
guarded-IsGranted_example =
    guarded-IsGranted strip decode wanted 160000 300000 claim_alert (some "Bearer abc") 0
