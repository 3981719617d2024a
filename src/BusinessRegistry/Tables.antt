-- ===== src/BusinessRegistry/Tables.antt =====
-- The data of services/business-registry/src/business_registry/registry.py. The tables of
-- services/business-registry/migrations/0001_initial.sql have one row for an id, for a number
-- and for a short code, so that each is a dictionary; the columns that no lookup reads are left
-- out.
use fraudnet.Prelude.{String, Bool, true, false, Option, none, some, [], ◌==◌}
use fraudnet.Prelude.Dict.{Dict}

pub record Business : Type 0 where
  pub id : String
  pub name : String
  pub registration_number : Option String
  pub status : String
  pub verified_at : Option String
  pub tenant_id : String

pub record Lookup : Type 0 where
  pub matched : Bool
  pub business : Option Business
  pub is_verified : Bool

-- The three dictionaries of `InMemoryRegistry`, and the three tables of the database.
pub record Tables : Type 0 where
  pub businesses : Dict Business
  pub msisdns : Dict String
  pub shortcodes : Dict String

pub data Failure : Type 0 where
  lookup_error key_error unique_violation foreign_key_violation : Failure

pub data Result (A : Type 0) : Type 0 where
  ok : A → Result A
  raised : Failure → Result A

abbrev pub no_tables : Tables
no_tables = record { businesses = []; msisdns = []; shortcodes = [] }

abbrev pub not_matched : Lookup
not_matched = record { matched = false; business = none; is_verified = false }

-- `Lookup(matched=True, business=biz, is_verified=biz.status == "verified")`
abbrev pub matched_lookup : Business → Lookup
matched_lookup b = record {
  matched = true;
  business = some b;
  is_verified = b.status == "verified";
}

-- A new business, and one after its verification
abbrev pub pending_business : String → String → Option String → String → Business
pending_business bid name registration tenant = record {
  id = bid;
  name = name;
  registration_number = registration;
  status = "pending";
  verified_at = none;
  tenant_id = tenant;
}

abbrev pub verified_business : String → Business → Business
verified_business now b = record b { status = "verified"; verified_at = some now }
