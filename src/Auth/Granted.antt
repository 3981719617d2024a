-- ===== src/Auth/Granted.antt =====
-- Who reaches a handler behind both guards, for packages/auth-lib/src/fraudnet/auth.
use Prim.Native.String.{◌++◌}
use fraudnet.Prelude.{
  ℕ, ◌≡◌, ◌∙◌, refl, sym, ap, subst, String, Option, some, List, Bool-cases, Option-cases, inl, inr,
  ◌⊎◌, some_eq,
}
use fraudnet.Auth.Principal.{Role, has_any, has_step_up, Claims, step_up_of, extract_principal}
use fraudnet.Auth.Headers.{bearer-eq}
use fraudnet.Auth.Routes.{
  Error, Reply, raised, Decoded, valid, malformed, uncaught, bearer, Handler, require_role,
  require_step_up, route, decoded, auth_required, token_error, forbidden, step_up_required,
  with_principal,
}
use fraudnet.Auth.Checks.{
  HasRole, HasStepUp, has_any-HasRole, HasRole-has_any, has_step_up-HasStepUp,
  HasStepUp-has_step_up, Rejected, Decoded-cases, decoded-Rejected, valid_eq, bearer-read,
}

module _ {S R : Type 0} (strip : String → String) (decode : String → Decoded) (wanted : List Role)
    (now max_age_ms : ℕ) (handler : Handler S R) where
  -- The header is `Bearer ` and a token.
  abbrev pub Bears : Option String → String → Type 0
  Bears authorization token = authorization ≡ some ("Bearer " ++ token)

  -- The header holds a token that decodes to claims.
  abbrev pub Claimed : Option String → Claims → Type 0
  Claimed authorization claims =
      (token : String) × Bears authorization token × (decode (strip token) ≡ valid claims)

  -- Its claims have a wanted role and a step-up.
  abbrev pub IsGranted : Option String → Claims → Type 0
  IsGranted authorization claims =
      Claimed authorization claims × HasRole wanted claims × HasStepUp now max_age_ms claims

  -- The reason of each error
  abbrev pub IsReason : Option String → Error → Type 0
  IsReason authorization auth_required = (token : String) → ¬ Bears authorization token
  IsReason authorization token_error =
      (token : String) × Bears authorization token × Rejected (decode (strip token))
  IsReason authorization uncaught =
      (token : String) × Bears authorization token × (decode (strip token) ≡ malformed)
  IsReason authorization forbidden =
      (claims : Claims) × Claimed authorization claims × ¬ HasRole wanted claims
  IsReason authorization step_up_required =
      (claims : Claims) × Claimed authorization claims
      × HasRole wanted claims
      × ¬ HasStepUp now max_age_ms claims

  abbrev pub guarded : Option String → S → Reply R × S
  guarded = route strip decode (require_role wanted (require_step_up now max_age_ms handler))

  granted :
      (authorization : Option String) (claims : Claims) (s : S)
      → IsGranted authorization claims
      → guarded authorization s ≡ handler (extract_principal claims) s
  unfolding route with_principal require_role require_step_up
  granted authorization claims s ((token, b, d), r, u) =
      rw
        (
          bearer-read authorization token b,
          d,
          HasRole-has_any wanted claims r,
          HasStepUp-has_step_up now max_age_ms claims u,
        )
        refl

  same_token :
      (authorization : Option String) (token found : String)
      → Bears authorization token
      → Bears authorization found
      → token ≡ found
  same_token authorization token found b c =
      some_eq (sym (bearer-read authorization token b) ∙ bearer-read authorization found c)

  same_claims :
      (authorization : Option String) (claims found : Claims)
      → Claimed authorization claims
      → Claimed authorization found
      → claims ≡ found
  same_claims authorization claims found (token, b, d) (other_token, c, e) =
      valid_eq claims found
        (sym d ∙ ap (λ x. decode (strip x)) (same_token authorization token other_token b c) ∙ e)

  -- An error with a reason is not raised where access is granted.
  IsReason-not :
      (authorization : Option String) (e : Error)
      → IsReason authorization e
      → (claims : Claims) → ¬ IsGranted authorization claims
  IsReason-not authorization auth_required none_borne claims ((token, b, d), r, u) =
      none_borne token b
  IsReason-not authorization token_error (found, c, bad) claims ((token, b, d), r, u) =
      let same = ap (λ x. decode (strip x)) (same_token authorization found token c b) in
      cc (sym (decoded-Rejected _ bad) ∙ ap decoded (same ∙ d))
  IsReason-not authorization uncaught (found, c, bad) claims ((token, b, d), r, u) =
      let same = ap (λ x. decode (strip x)) (same_token authorization found token c b) in
      cc (sym bad ∙ same ∙ d)
  IsReason-not authorization forbidden (found, c, refused) claims (k, r, u) =
      refused (subst (HasRole wanted) (same_claims authorization claims found k c) r)
  IsReason-not authorization step_up_required (found, c, held, refused) claims (k, r, u) =
      refused (subst (HasStepUp now max_age_ms) (same_claims authorization claims found k c) u)

  -- The reply behind the guards, by the claims of the token
  verdict :
      (authorization : Option String) (s : S) (token : String) (claims : Claims)
      → bearer authorization ≡ some token
      → decode (strip token) ≡ valid claims
      → IsGranted authorization claims
        ⊎ ((e : Error) × IsReason authorization e × (guarded authorization s ≡ (raised e, s)))
  unfolding route with_principal require_role require_step_up
  verdict authorization s token claims b d =
      let k : Claimed authorization claims = (token, bearer-eq authorization token b, d) in
      elim (Bool-cases (has_any (extract_principal claims) wanted)) [
        | inr none_held ↦ inr (
          forbidden,
          (claims, k, λ r. cc (none_held, HasRole-has_any wanted claims r)),
          rw (b, d, none_held) refl,
        )
        | inl held ↦
            elim (Bool-cases (has_step_up now max_age_ms (step_up_of claims.step_up_at_ms))) [
              | inr stale ↦ inr (
                step_up_required,
                (
                  claims,
                  k,
                  has_any-HasRole wanted claims held,
                  λ u. cc (stale, HasStepUp-has_step_up now max_age_ms claims u),
                ),
                rw (b, d, held, stale) refl,
              )
              | inl fresh ↦ inl (
                k,
                has_any-HasRole wanted claims held,
                has_step_up-HasStepUp now max_age_ms claims fresh,
              )
            ]
      ]

  -- For every decoder of tokens, handler and state: behind both guards the handler runs, as the
  -- principal of the claims, where the header is "Bearer " and a token that, stripped, decodes
  -- to claims that list a wanted role and a step-up at most the largest age before now, or after
  -- it. Where it is none of that kind, the state stays as it is and an error is raised for its
  -- reason: no bearer token, a token whose key is not found or that is expired or invalid, one
  -- on which the JWT library raises what nothing catches, no wanted role, or no such step-up.
  pub guarded-IsGranted :
      (authorization : Option String) (s : S)
      → ((claims : Claims) × IsGranted authorization claims
          × (guarded authorization s ≡ handler (extract_principal claims) s))
        ⊎ (((claims : Claims) → ¬ IsGranted authorization claims)
            × (e : Error) × IsReason authorization e
            × (guarded authorization s ≡ (raised e, s)))
  unfolding route with_principal
  guarded-IsGranted authorization s = elim (Option-cases (bearer authorization)) [
    | inl b ↦
        let r : IsReason authorization auth_required =
          λ token c. cc (sym b ∙ bearer-read authorization token c) in
        inr (IsReason-not authorization auth_required r, auth_required, r, rw b refl)
    | inr (token, b) ↦ elim (Decoded-cases (decode (strip token))) [
      | inr (inl d) ↦
          let r : IsReason authorization token_error =
            (token, bearer-eq authorization token b, d) in
          inr (
            IsReason-not authorization token_error r,
            token_error,
            r,
            rw (b, decoded-Rejected (decode (strip token)) d) refl,
          )
      | inr (inr d) ↦
          let r : IsReason authorization uncaught = (token, bearer-eq authorization token b, d) in
          inr (IsReason-not authorization uncaught r, uncaught, r, rw (b, d) refl)
      | inl (claims, d) ↦ elim (verdict authorization s token claims b d) [
        | inl g ↦ inl (claims, g, granted authorization claims s g)
        | inr (e, r, same) ↦ inr (IsReason-not authorization e r, e, r, same)
      ]
    ]
  ]
