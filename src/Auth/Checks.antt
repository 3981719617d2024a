-- ===== src/Auth/Checks.antt =====
-- What the two guards test of claims, and how a token is decoded, for
-- packages/auth-lib/src/fraudnet/auth.
use Prim.Native.String.{◌++◌}
use mathlib.Core.List.{Memᴰ}
use fraudnet.Prelude.{
  ℕ, ◌+◌, ◌≤◌, ◌≡◌, ◌∙◌, refl, sym, ap, subst, String, true, Option, some, List, ◌==◌, eq_iff,
  arith, Option-cases, inl, inr, ◌⊎◌,
}
use fraudnet.Prelude.Members.{any-Mem}
use fraudnet.Auth.Principal.{
  Role, role_value, has_any, has_role, has_step_up, number, other, Claims, raw_roles, step_up_of,
  extract_principal,
}
use fraudnet.Auth.Listed.{holds-roles_of, Mem-any}
use fraudnet.Auth.Headers.{bearer-append}
use fraudnet.Auth.Routes.{
  raised, Decoded, valid, key_not_found, malformed, expired, invalid, bearer, decoded, token_error,
}

-- One of the roles that the route wants is listed in the claims.
abbrev pub HasRole : List Role → Claims → Type 0
HasRole wanted claims = (w : Role) × Memᴰ w wanted × Memᴰ (role_value w) (raw_roles claims)

-- The claims tell of a step-up at most that long before now, or after now.
abbrev pub HasStepUp : ℕ → ℕ → Claims → Type 0
HasStepUp now max_age_ms claims =
    (at : ℕ) × (claims.step_up_at_ms ≡ some (number at)) × (now ≤ at + max_age_ms)

pub has_any-HasRole :
    (wanted : List Role) (claims : Claims)
    → has_any (extract_principal claims) wanted ≡ true
    → HasRole wanted claims
has_any-HasRole wanted claims h =
    let (w, m, held) = any-Mem (has_role (extract_principal claims)) wanted h in
    let (name, listed, same) =
      any-Mem (λ s. s == role_value w) (raw_roles claims)
        (sym (holds-roles_of w (raw_roles claims)) ∙ held) in
    (w, m, subst (λ s. Memᴰ s (raw_roles claims)) ((eq_iff name (role_value w)).0 same) listed)

pub HasRole-has_any :
    (wanted : List Role) (claims : Claims)
    → HasRole wanted claims
    → has_any (extract_principal claims) wanted ≡ true
HasRole-has_any wanted claims (w, m, listed) =
    Mem-any (has_role (extract_principal claims)) wanted m (
      holds-roles_of w (raw_roles claims)
      ∙ Mem-any (λ s. s == role_value w) (raw_roles claims) listed
          ((eq_iff (role_value w) (role_value w)).1 refl))

pub has_step_up-HasStepUp :
    (now max_age_ms : ℕ) (claims : Claims)
    → has_step_up now max_age_ms (step_up_of claims.step_up_at_ms) ≡ true
    → HasStepUp now max_age_ms claims
has_step_up-HasStepUp now max_age_ms claims h = elim (Option-cases claims.step_up_at_ms) [
  | inl e ↦ absurd (cc (sym h ∙ ap (λ o. has_step_up now max_age_ms (step_up_of o)) e))
  | inr (other, e) ↦ absurd (cc (sym h ∙ ap (λ o. has_step_up now max_age_ms (step_up_of o)) e))
  | inr (number at, e) ↦
      let fresh = sym (ap (λ o. has_step_up now max_age_ms (step_up_of o)) e) ∙ h in
      (at, e, ground (arith, fresh))
]

pub HasStepUp-has_step_up :
    (now max_age_ms : ℕ) (claims : Claims)
    → HasStepUp now max_age_ms claims
    → has_step_up now max_age_ms (step_up_of claims.step_up_at_ms) ≡ true
HasStepUp-has_step_up now max_age_ms claims (at, e, fresh) =
    ap (λ o. has_step_up now max_age_ms (step_up_of o)) e ∙ ground (arith, fresh)

-- The decodings that the validator turns into a TokenError
abbrev pub Rejected : Decoded → Type 0
Rejected d = (d ≡ key_not_found) ⊎ (d ≡ expired) ⊎ (d ≡ invalid)

pub Decoded-cases :
    (d : Decoded) → ((claims : Claims) × (d ≡ valid claims)) ⊎ Rejected d ⊎ (d ≡ malformed)
Decoded-cases (valid claims) = inl (claims, refl)
Decoded-cases key_not_found = inr (inl (inl refl))
Decoded-cases malformed = inr (inr refl)
Decoded-cases expired = inr (inl (inr (inl refl)))
Decoded-cases invalid = inr (inl (inr (inr refl)))

pub decoded-Rejected : (d : Decoded) → Rejected d → decoded d ≡ raised token_error
decoded-Rejected d (inl e) = ap decoded e
decoded-Rejected d (inr (inl e)) = ap decoded e
decoded-Rejected d (inr (inr e)) = ap decoded e

claims_or : Claims → Decoded → Claims
claims_or default (valid claims) = claims
claims_or default _ = default

pub valid_eq : (a b : Claims) → valid a ≡ valid b → a ≡ b
unfolding claims_or
valid_eq a b e = ap (claims_or a) e

pub bearer-read :
    (authorization : Option String) (token : String)
    → authorization ≡ some ("Bearer " ++ token)
    → bearer authorization ≡ some token
bearer-read authorization token b = ap bearer b ∙ bearer-append token
