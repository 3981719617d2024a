-- ===== src/BusinessRegistry/Cached.antt =====
-- `Registry` of services/business-registry/src/business_registry/registry.py: each SQL statement by
-- what it does to the tables and what it answers, and the cache beside them.
use fraudnet.Prelude.{
  String, Bool, true, false, Option, none, some, List, [], ◌∷◌, ◌==◌, if◌then◌else◌, filter, map,
}
use fraudnet.Prelude.Dict
use fraudnet.Prelude.Dict.{Dict}
use fraudnet.BusinessRegistry.Tables.{
  Business, Lookup, Tables, Result, ok, raised, lookup_error, unique_violation,
  foreign_key_violation, not_matched, matched_lookup, pending_business, verified_business,
}
use fraudnet.BusinessRegistry.Cache.{Json, get_key, set_key, invalidate, msisdn_key, shortcode_key}

pub record Registry : Type 0 where
  pub tables : Tables
  -- `none` without a cache
  pub cache : Option (Dict String)

abbrev pub on_cache : (Dict String → Dict String) → Option (Dict String) → Option (Dict String)
on_cache f none = none
on_cache f (some c) = some (f c)

unfoldable pub create_business :
    String → String → Option String → String → Registry → Result Business × Registry
create_business bid name registration tenant r =
    let b = pending_business bid name registration tenant in
    if Dict.contains bid r.tables.businesses then (raised unique_violation, r) else (
      ok b,
      record r { tables = record r.tables { businesses = Dict.insert bid b r.tables.businesses } },
    )

-- `SELECT msisdn FROM business_msisdns WHERE business_id = $1`
abbrev pub links_to : String → Dict String → List String
links_to bid d = map (λ e. e.0) (filter (λ e. e.1 == bid) d)

unfoldable pub invalidate_all : List String → Dict String → Dict String
invalidate_all [] c = c
invalidate_all (key ∷ keys) c = invalidate_all keys (invalidate key c)

-- `_purge_business_cache`
unfoldable pub purge : (String → String) → String → Tables → Dict String → Dict String
purge upper bid t c =
    invalidate_all (map (shortcode_key upper) (links_to bid t.shortcodes))
      (invalidate_all (map msisdn_key (links_to bid t.msisdns)) c)

unfoldable pub verify_found :
    (String → String) → String → String → Registry → Option Business → Result Business × Registry
verify_found upper now bid r none = (raised lookup_error, r)
verify_found upper now bid r (some b) = (
  ok (verified_business now b),
  record {
    tables = record r.tables {
      businesses = Dict.insert bid (verified_business now b) r.tables.businesses;
    };
    cache = on_cache (purge upper bid r.tables) r.cache;
  },
)

unfoldable pub verify_business :
    (String → String) → String → String → Registry → Result Business × Registry
verify_business upper now bid r = verify_found upper now bid r (Dict.lookup bid r.tables.businesses)

-- `INSERT ... ON CONFLICT (business_id, <key>) DO UPDATE`, with the foreign key and the unique index
-- on the key
unfoldable pub link_row : String → String → Dict String → Option String → Result (Dict String)
link_row bid key d none = ok (Dict.insert key bid d)
link_row bid key d (some other) =
    if other == bid then ok (Dict.insert key bid d) else raised unique_violation

unfoldable pub link : Bool → String → String → Dict String → Result (Dict String)
link false bid key d = raised foreign_key_violation
link true bid key d = link_row bid key d (Dict.lookup key d)

unfoldable pub linked_msisdn :
    String → Registry → Result (Dict String) → Result (Unit {0}) × Registry
linked_msisdn msisdn r (raised f) = (raised f, r)
linked_msisdn msisdn r (ok d) = (
  ok tt,
  record {
    tables = record r.tables { msisdns = d };
    cache = on_cache (invalidate (msisdn_key msisdn)) r.cache;
  },
)

unfoldable pub add_msisdn : String → String → Registry → Result (Unit {0}) × Registry
add_msisdn bid msisdn r =
    linked_msisdn msisdn r
      (link (Dict.contains bid r.tables.businesses) bid msisdn r.tables.msisdns)

unfoldable pub linked_shortcode :
    (String → String) → String → Registry → Result (Dict String) → Result (Unit {0}) × Registry
linked_shortcode upper code r (raised f) = (raised f, r)
linked_shortcode upper code r (ok d) = (
  ok tt,
  record {
    tables = record r.tables { shortcodes = d };
    cache = on_cache (invalidate (shortcode_key upper code)) r.cache;
  },
)

unfoldable pub add_shortcode :
    (String → String) → String → String → Registry → Result (Unit {0}) × Registry
add_shortcode upper bid code r =
    linked_shortcode upper code r
      (link (Dict.contains bid r.tables.businesses) bid (upper code) r.tables.shortcodes)

-- The join of a link with its business, and `_row_to_lookup`
unfoldable pub row : Tables → Option String → Option Business
row t none = none
row t (some bid) = Dict.lookup bid t.businesses

unfoldable pub row_to_lookup : Option Business → Lookup
row_to_lookup none = not_matched
row_to_lookup (some b) = matched_lookup b

abbrev pub query_msisdn : String → Tables → Lookup
query_msisdn msisdn t = row_to_lookup (row t (Dict.lookup msisdn t.msisdns))

abbrev pub query_shortcode : String → Tables → Lookup
query_shortcode code t = row_to_lookup (row t (Dict.lookup code t.shortcodes))

-- Cache-aside: the cached answer, or the queried one, which the cache then keeps.
unfoldable pub aside : Json → String → Lookup → Registry → Option Lookup → Lookup × Registry
aside json key queried r (some l) = (l, r)
aside json key queried r none =
    (queried, record r { cache = on_cache (set_key json key queried) r.cache })

-- No answer without a cache
abbrev pub cached : Json → String → Option (Dict String) → Option Lookup
cached json key none = none
cached json key (some c) = get_key json key c

unfoldable pub lookup_msisdn : Json → String → Registry → Lookup × Registry
lookup_msisdn json msisdn r =
    aside json (msisdn_key msisdn) (query_msisdn msisdn r.tables) r
      (cached json (msisdn_key msisdn) r.cache)

unfoldable pub lookup_shortcode : Json → (String → String) → String → Registry → Lookup × Registry
lookup_shortcode json upper shortcode r =
    aside json (shortcode_key upper (upper shortcode)) (query_shortcode (upper shortcode) r.tables)
      r (cached json (shortcode_key upper (upper shortcode)) r.cache)

pub data Operation : Type 0 where
  create : String → String → Option String → String → Operation
  verify : String → String → Operation
  link_msisdn link_shortcode : String → String → Operation
  find_msisdn find_shortcode : String → Operation
  -- a key's time to live ends
  expire : String → Operation

unfoldable pub apply : Json → (String → String) → Operation → Registry → Registry
apply json upper (create bid name registration tenant) r =
    (create_business bid name registration tenant r).1
apply json upper (verify now bid) r = (verify_business upper now bid r).1
apply json upper (link_msisdn bid msisdn) r = (add_msisdn bid msisdn r).1
apply json upper (link_shortcode bid code) r = (add_shortcode upper bid code r).1
apply json upper (find_msisdn msisdn) r = (lookup_msisdn json msisdn r).1
apply json upper (find_shortcode code) r = (lookup_shortcode json upper code r).1
apply json upper (expire key) r = record r { cache = on_cache (invalidate key) r.cache }

unfoldable pub run : Json → (String → String) → List Operation → Registry → Registry
run json upper [] r = r
run json upper (o ∷ os) r = run json upper os (apply json upper o r)
