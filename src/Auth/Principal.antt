-- ===== src/Auth/Principal.antt =====
-- packages/auth-lib/src/fraudnet/auth: the principal of principal.py, and how token.py makes it from
-- the claims of a token. The claims are those that the code reads, each of the type it expects, and
-- no number among them is negative.
use fraudnet.Prelude.{
  ℕ, ◌+◌, String, Bool, false, Option, none, some, List, [], ◌∷◌, ◌==◌, leb, if◌then◌else◌,
}
use fraudnet.Prelude.Members.{any, first}

pub data Role : Type 0 where
  fraud_analyst fraud_lead fraud_manager noc_viewer customer enterprise_admin enterprise_user : Role
  group_admin system_admin auditor service : Role

abbrev pub role_value : Role → String
role_value fraud_analyst = "FRAUD_ANALYST"
role_value fraud_lead = "FRAUD_LEAD"
role_value fraud_manager = "FRAUD_MANAGER"
role_value noc_viewer = "NOC_VIEWER"
role_value customer = "CUSTOMER"
role_value enterprise_admin = "ENTERPRISE_ADMIN"
role_value enterprise_user = "ENTERPRISE_USER"
role_value group_admin = "GROUP_ADMIN"
role_value system_admin = "SYSTEM_ADMIN"
role_value auditor = "AUDITOR"
role_value service = "SERVICE"

abbrev pub roles : List Role
roles =
    fraud_analyst ∷ fraud_lead ∷ fraud_manager ∷ noc_viewer ∷ customer ∷ enterprise_admin
    ∷ enterprise_user ∷ group_admin ∷ system_admin ∷ auditor ∷ service ∷ []

-- `Role(r)`, none for its ValueError
abbrev pub role_of : String → Option Role
role_of name = first (λ r. role_value r == name) roles

pub record Principal : Type 0 where
  pub subject : String
  pub actor_kind : String
  pub roles : List Role
  pub tenant_id : String
  pub step_up_at_ms : Option ℕ

abbrev pub holds : Role → List Role → Bool
holds role held = any (λ r. role_value r == role_value role) held

abbrev pub has_role : Principal → Role → Bool
has_role p role = holds role p.roles

abbrev pub has_any : Principal → List Role → Bool
has_any p wanted = any (has_role p) wanted

-- By the reading of the clock in milliseconds
abbrev pub has_step_up : ℕ → ℕ → Option ℕ → Bool
has_step_up now max_age_ms none = false
has_step_up now max_age_ms (some at) = leb now (at + max_age_ms)

-- The value of the claim `step_up_at_ms`: a number, already cut to an integer, or of another type
pub data StepUp : Type 0 where
  number : ℕ → StepUp
  other : StepUp

-- `roles` of the claim `realm_access` is missing, null or a list.
pub record RealmAccess : Type 0 where
  pub roles : Option (Option (List String))

pub record Claims : Type 0 where
  pub sub : Option String
  pub tenant_id : Option String
  pub realm_access : Option RealmAccess
  pub step_up_at_ms : Option StepUp

-- `claims.get("realm_access", {}).get("roles", []) or []`
abbrev pub listed : Option (Option (List String)) → List String
listed (some (some names)) = names
listed _ = []

abbrev pub raw_of : Option RealmAccess → List String
raw_of none = []
raw_of (some access) = listed access.roles

abbrev pub raw_roles : Claims → List String
raw_roles claims = raw_of claims.realm_access

abbrev pub add_role : Option Role → List Role → List Role
add_role none held = held
add_role (some r) held = r ∷ held

unfoldable pub roles_of : List String → List Role
roles_of [] = []
roles_of (name ∷ names) = add_role (role_of name) (roles_of names)

abbrev pub step_up_of : Option StepUp → Option ℕ
step_up_of (some (number at)) = some at
step_up_of _ = none

abbrev pub or_else : String → Option String → String
or_else default none = default
or_else default (some s) = s

abbrev pub extract_principal : Claims → Principal
extract_principal claims = record {
  subject = or_else "" claims.sub;
  actor_kind = if holds service (roles_of (raw_roles claims)) then "service" else "user";
  roles = roles_of (raw_roles claims);
  tenant_id = or_else "mtn-ghana" claims.tenant_id;
  step_up_at_ms = step_up_of claims.step_up_at_ms;
}
