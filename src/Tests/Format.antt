-- ===== src/Tests/Format.antt =====
-- A text format for the lookups of a cache that can be read back, in place of JSON, for
-- services/business-registry/src/business_registry/registry.py.
use Prim.Native.Char.{Char, code}
use fraudnet.Prelude.{
  ◌≡◌, ◌≢◌, refl, ap, String, Bool, true, false, Option, none, some, leb, ◌&&◌, ◌==◌, if◌then◌else◌,
}
use fraudnet.BusinessRegistry.Tables.{Business, Lookup, matched_lookup}
use fraudnet.BusinessRegistry.Cache.{Json, neg_value}

-- A text, each character after an "x", and a "." at its end
write : String → String → String
write String.[] k = String.◌∷◌ "." k
write (String.◌∷◌ c s) k = String.◌∷◌ "x" (String.◌∷◌ c (write s k))

abbrev is_end : Char → Bool
is_end a = leb (code a) 46 && leb 46 (code a)

abbrev with_first : Char → String × String → String × String
with_first c (s, k) = (String.◌∷◌ c s, k)

read : String → String × String
read String.[] = ("", "")
read (String.◌∷◌ a String.[]) = ("", "")
read (String.◌∷◌ a (String.◌∷◌ c t)) =
    let rest = read t in if is_end a then ("", String.◌∷◌ c t) else with_first c rest

read-write : (s k : String) → read (write s k) ≡ (s, k)
unfolding read write
read-write String.[] String.[] = refl
read-write String.[] (String.◌∷◌ c t) = refl
read-write (String.◌∷◌ c s) k = ap (with_first c) (read-write s k)

-- An optional text, as the text with a character before it, or as the empty text
abbrev marked : Option String → String
marked none = ""
marked (some s) = String.◌∷◌ "s" s

abbrev unmarked : String → Option String
unmarked String.[] = none
unmarked (String.◌∷◌ c s) = some s

unmarked-marked : (o : Option String) → unmarked (marked o) ≡ o
unmarked-marked none = refl
unmarked-marked (some s) = refl

pub write_business : Business → String
write_business b = write b.id (
    write b.name (
      write (marked b.registration_number)
        (write b.status (write (marked b.verified_at) (write b.tenant_id "")))))

-- The fields one after another, each read from what the one before leaves
read_tenant :
    (id name : String) (registration : Option String) (status : String) (at : Option String)
    → String × String
    → Business
read_tenant id name registration status at r = record {
  id = id;
  name = name;
  registration_number = registration;
  status = status;
  verified_at = at;
  tenant_id = r.0;
}

read_at :
    (id name : String) (registration : Option String) (status : String) → String × String → Business
read_at id name registration status r =
    read_tenant id name registration status (unmarked r.0) (read r.1)

read_status : (id name : String) (registration : Option String) → String × String → Business
read_status id name registration r = read_at id name registration r.0 (read r.1)

read_registration : (id name : String) → String × String → Business
read_registration id name r = read_status id name (unmarked r.0) (read r.1)

read_name : (id : String) → String × String → Business
read_name id r = read_registration id r.0 (read r.1)

pub read_business : String → Business
read_business t = read_name (read t).0 (read (read t).1)

read-write_business : (b : Business) → read_business (write_business b) ≡ b
unfolding read_business read_name read_registration read_status read_at read_tenant write_business
read-write_business b = simp (read-write, unmarked-marked)

abbrev written : Option Business → String
written none = "{"
written (some b) = String.◌∷◌ "{" (write_business b)

abbrev body : String → String
body String.[] = ""
body (String.◌∷◌ c s) = s

abbrev pub format : Json
format = record {
  dumps = λ l. written l.business;
  loads = λ s. some (matched_lookup (read_business (body s)));
}

pub format_trip :
    (b : Business) → format.loads (format.dumps (matched_lookup b)) ≡ some (matched_lookup b)
format_trip b = ap (λ x. some (matched_lookup x)) (read-write_business b)

apart : ◌≢◌ {A = Bool} true false
apart h = absurd (cc h)

abbrev is_brace : String → Bool
is_brace String.[] = false
is_brace (String.◌∷◌ c s) = leb 100 (code c)

written_mark : (o : Option Business) → written o ≢ neg_value
written_mark none e = absurd (cc (ap (λ s. s == "{") e))
written_mark (some b) e = apart (ap is_brace e)

pub format_unmarked : (l : Lookup) → format.dumps l ≢ neg_value
format_unmarked l e = written_mark l.business e
