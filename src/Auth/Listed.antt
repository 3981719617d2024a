-- ===== src/Auth/Listed.antt =====
-- Which roles a principal holds, by the names that its claims list, for
-- packages/auth-lib/src/fraudnet/auth.
use mathlib.Core.List.{Memᴰ}
use mathlib.Core.List.Memᴰ
use fraudnet.Prelude.{
  ◌≡◌, ◌∙◌, refl, sym, ap, String, Bool, true, false, none, some, List, [], ◌∷◌, ◌==◌, eq_iff,
  Bool-cases, Option-cases, inl, inr,
}
use fraudnet.Prelude.Members.{any, first-Mem}
use fraudnet.Auth.Principal.{
  Role, fraud_analyst, fraud_lead, fraud_manager, noc_viewer, customer, enterprise_admin,
  enterprise_user, group_admin, system_admin, auditor, service, role_value, role_of, roles, holds,
  roles_of,
}

role_of-role_value : (w : Role) → role_of (role_value w) ≡ some w
role_of-role_value fraud_analyst = refl
role_of-role_value fraud_lead = refl
role_of-role_value fraud_manager = refl
role_of-role_value noc_viewer = refl
role_of-role_value customer = refl
role_of-role_value enterprise_admin = refl
role_of-role_value enterprise_user = refl
role_of-role_value group_admin = refl
role_of-role_value system_admin = refl
role_of-role_value auditor = refl
role_of-role_value service = refl

role_of-none : (name : String) (w : Role) → role_of name ≡ none → (name == role_value w) ≡ false
role_of-none name w e = elim (Bool-cases (name == role_value w)) [
  | inl same ↦
      absurd (cc (sym e ∙ ap role_of ((eq_iff name (role_value w)).0 same) ∙ role_of-role_value w))
  | inr differs ↦ differs
]

role_of-some : (name : String) (r : Role) → role_of name ≡ some r → role_value r ≡ name
role_of-some name r e =
    (eq_iff (role_value r) name).0 (first-Mem (λ q. role_value q == name) roles e).1

-- A role is held just where its name is listed.
pub holds-roles_of :
    (w : Role) (names : List String) → holds w (roles_of names) ≡ any (λ s. s == role_value w) names
unfolding roles_of
holds-roles_of w [] = refl
holds-roles_of w (name ∷ names) = elim (Option-cases (role_of name)) [
  | inl e ↦ rw (e, role_of-none name w e) (holds-roles_of w names)
  | inr (r, e) ↦ rw (e, role_of-some name r e, holds-roles_of w names) refl
]

pub Mem-any :
    {A : Type 0} (p : A → Bool) (xs : List A) {a : A} → Memᴰ a xs → p a ≡ true → any p xs ≡ true
Mem-any p [] m h = absurd (Memᴰ.not-nil m)
Mem-any p (x ∷ xs) (Memᴰ.head same) h = rw (sym (ap p same) ∙ h) refl
Mem-any p (x ∷ xs) (Memᴰ.tail m) h = elim (Bool-cases (p x)) [
  | inl e ↦ rw e refl
  | inr e ↦ rw e (Mem-any p xs m h)
]
