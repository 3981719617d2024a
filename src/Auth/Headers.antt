-- ===== src/Auth/Headers.antt =====
-- The header of a bearer token, for `auth_dependency` of packages/auth-lib/src/fraudnet/auth/rbac.py.
use Prim.Native.Char.{code}
use Prim.Native.String.{◌++◌}
use text.Mathlib.TextEquality.{Char-path}
use text.Mathlib.TextLemmas.{nil-append, cons-append}
use fraudnet.Prelude.{
  ◌≡◌, ◌∙◌, sym, ap, String, ◌||◌, ltb, Option, none, some, some_eq, arith, Bool-cases, inl, inr,
  if◌then◌else◌,
}
use fraudnet.Auth.Routes.{after_prefix, bearer}

after_prefix-eq : (t s u : String) → after_prefix t s ≡ some u → s ≡ t ++ u
unfolding after_prefix
after_prefix-eq String.[] s u h = some_eq h ∙ sym (nil-append u)
after_prefix-eq (String.◌∷◌ c t) String.[] u h = cc
after_prefix-eq (String.◌∷◌ c t) (String.◌∷◌ d s) u h =
    elim (Bool-cases (ltb (code d) (code c) || ltb (code c) (code d))) [
      | inl differs ↦ cc (sym (ap (λ b. if b then none else after_prefix t s) differs) ∙ h)
      | inr same ↦
          let rest =
            after_prefix-eq t s u (sym (ap (λ b. if b then none else after_prefix t s) same) ∙ h) in
          let head : d ≡ c = Char-path d c (ground (arith, same)) in
          (ap (λ x. String.◌∷◌ x s) head ∙ ap (String.◌∷◌ c) rest ∙ sym (cons-append c t u))
    ]

after_prefix-append : (t u : String) → after_prefix t (t ++ u) ≡ some u
unfolding after_prefix
after_prefix-append String.[] u = ap some (nil-append u)
after_prefix-append (String.◌∷◌ c t) u =
    ap (after_prefix (String.◌∷◌ c t)) (cons-append c t u)
    ∙ elim (Bool-cases (ltb (code c) (code c) || ltb (code c) (code c))) [
      | inl differs ↦ ground (arith, differs)
      | inr same ↦ rw same (after_prefix-append t u)
    ]

pub bearer-eq :
    (authorization : Option String) (token : String)
    → bearer authorization ≡ some token
    → authorization ≡ some ("Bearer " ++ token)
bearer-eq none token h = cc
bearer-eq (some s) token h = ap some (after_prefix-eq "Bearer " s token h)

pub bearer-append : (token : String) → bearer (some ("Bearer " ++ token)) ≡ some token
bearer-append token = after_prefix-append "Bearer " token
