-- ===== src/BusinessRegistry/InMemory.antt =====
-- `InMemoryRegistry` of services/business-registry/src/business_registry/registry.py. An id of uuid4
-- and the time are inputs, and `upper` is Python's.
use Prim.Native.String.{compare}
use Prim.Native.Nat.{Ordering}
use fraudnet.Prelude.{
  String, Bool, true, false, Option, none, some, List, [], ◌∷◌, ◌==◌, if◌then◌else◌, filter, map,
}
use fraudnet.Prelude.Dict
use fraudnet.Prelude.Dict.{Dict}
use fraudnet.Prelude.Members.{sort_by}
use fraudnet.BusinessRegistry.Tables.{
  Business, Lookup, Tables, Result, ok, raised, lookup_error, key_error, not_matched,
  matched_lookup, pending_business, verified_business,
}

unfoldable pub create_business :
    String → String → Option String → String → Tables → Business × Tables
create_business bid name registration tenant t =
    let b = pending_business bid name registration tenant in
    (b, record t { businesses = Dict.insert bid b t.businesses })

unfoldable pub verify_found : String → String → Tables → Option Business → Result Business × Tables
verify_found now bid t none = (raised lookup_error, t)
verify_found now bid t (some b) = (
  ok (verified_business now b),
  record t { businesses = Dict.insert bid (verified_business now b) t.businesses },
)

unfoldable pub verify_business : String → String → Tables → Result Business × Tables
verify_business now bid t = verify_found now bid t (Dict.lookup bid t.businesses)

unfoldable pub add_msisdn : String → String → Tables → Result (Unit {0}) × Tables
add_msisdn bid msisdn t =
    if Dict.contains bid t.businesses
    then (ok tt, record t { msisdns = Dict.insert msisdn bid t.msisdns })
    else (raised lookup_error, t)

unfoldable pub add_shortcode :
    (String → String) → String → String → Tables → Result (Unit {0}) × Tables
add_shortcode upper bid shortcode t =
    if Dict.contains bid t.businesses
    then (ok tt, record t { shortcodes = Dict.insert (upper shortcode) bid t.shortcodes })
    else (raised lookup_error, t)

abbrev pub get_business : String → Tables → Option Business
get_business bid t = Dict.lookup bid t.businesses

-- `self._businesses[bid]`, which raises on a missing key
unfoldable pub business_of : Option Business → Result Lookup
business_of none = raised key_error
business_of (some b) = ok (matched_lookup b)

unfoldable pub linked : Tables → Option String → Result Lookup
linked t none = ok not_matched
linked t (some bid) = business_of (Dict.lookup bid t.businesses)

abbrev pub lookup_msisdn : String → Tables → Result Lookup
lookup_msisdn msisdn t = linked t (Dict.lookup msisdn t.msisdns)

abbrev pub lookup_shortcode : (String → String) → String → Tables → Result Lookup
lookup_shortcode upper shortcode t = linked t (Dict.lookup (upper shortcode) t.shortcodes)

abbrev pub by_name : Business → Business → Bool
by_name b a = elim (compare b.name a.name) [ Ordering.lt ↦ true | _ ↦ false ]

abbrev pub of_status : Option String → List Business → List Business
of_status none bs = bs
of_status (some status) bs = filter (λ b. b.status == status) bs

unfoldable pub list_businesses : Option String → Tables → List Business
list_businesses status t = sort_by by_name (of_status status (map (λ e. e.1) t.businesses))

pub data Operation : Type 0 where
  create : String → String → Option String → String → Operation
  verify : String → String → Operation
  link_msisdn link_shortcode : String → String → Operation

unfoldable pub apply : (String → String) → Operation → Tables → Tables
apply upper (create bid name registration tenant) t =
    (create_business bid name registration tenant t).1
apply upper (verify now bid) t = (verify_business now bid t).1
apply upper (link_msisdn bid msisdn) t = (add_msisdn bid msisdn t).1
apply upper (link_shortcode bid code) t = (add_shortcode upper bid code t).1

unfoldable pub run : (String → String) → List Operation → Tables → Tables
run upper [] t = t
run upper (o ∷ os) t = run upper os (apply upper o t)
