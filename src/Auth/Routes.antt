-- ===== src/Auth/Routes.antt =====
-- packages/auth-lib/src/fraudnet/auth/rbac.py: the dependency that reads the header and the two
-- guards around a handler. `strip` is Python's, and the library that decodes a token is a
-- parameter, with the exceptions that token.py catches as answers.
use Prim.Native.Char.{code}
use fraudnet.Prelude.{ℕ, String, ◌||◌, Option, none, some, List, ltb, if◌then◌else◌}
use fraudnet.Auth.Principal.{Role, Principal, Claims, has_any, has_step_up, extract_principal}

-- `AuthError`, `TokenError`, `ForbiddenError` and `StepUpRequiredError`, and an exception of the JWT
-- library that nothing catches
pub data Error : Type 0 where
  auth_required token_error forbidden step_up_required uncaught : Error

pub data Reply (A : Type 0) : Type 0 where
  answered : A → Reply A
  raised : Error → Reply A

-- How the search for the key and `jwt.decode` end. Around the search only `PyJWKClientError` is caught:
-- another exception, such as the `DecodeError` of a token that is not well formed, is `malformed`.
pub data Decoded : Type 0 where
  valid : Claims → Decoded
  key_not_found malformed expired invalid : Decoded

abbrev pub decoded : Decoded → Reply Claims
decoded (valid claims) = answered claims
decoded malformed = raised uncaught
decoded _ = raised token_error

-- What is left of a text after a prefix
unfoldable pub after_prefix : String → String → Option String
after_prefix String.[] s = some s
after_prefix (String.◌∷◌ c t) String.[] = none
after_prefix (String.◌∷◌ c t) (String.◌∷◌ d s) =
    let rest = after_prefix t s in
    if ltb (code d) (code c) || ltb (code c) (code d) then none else rest

abbrev pub bearer : Option String → Option String
bearer none = none
bearer (some authorization) = after_prefix "Bearer " authorization

-- A handler takes the principal and the state, and may change the state.
abbrev pub Handler : Type 0 → Type 0 → Type 0
Handler S R = Principal → S → Reply R × S

module _ {S R : Type 0} where
  unfoldable pub require_role : List Role → Handler S R → Handler S R
  require_role wanted handler principal s =
      if has_any principal wanted then handler principal s else (raised forbidden, s)

  unfoldable pub require_step_up : ℕ → ℕ → Handler S R → Handler S R
  require_step_up now max_age_ms handler principal s =
      if has_step_up now max_age_ms principal.step_up_at_ms
      then handler principal s
      else (raised step_up_required, s)

  unfoldable pub with_principal : Handler S R → Reply Principal → S → Reply R × S
  with_principal handler (answered principal) s = handler principal s
  with_principal handler (raised e) s = (raised e, s)

abbrev pub principal_of : Reply Claims → Reply Principal
principal_of (answered claims) = answered (extract_principal claims)
principal_of (raised e) = raised e

module _ (strip : String → String) (decode : String → Decoded) where
  abbrev pub of_token : Option String → Reply Claims
  of_token none = raised auth_required
  of_token (some token) = decoded (decode (strip token))

  abbrev pub resolve : Option String → Reply Principal
  resolve authorization = principal_of (of_token (bearer authorization))

  -- A route with the dependency
  unfoldable pub route : {S R : Type 0} → Handler S R → Option String → S → Reply R × S
  route handler authorization s = with_principal handler (resolve authorization) s
