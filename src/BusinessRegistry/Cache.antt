-- ===== src/BusinessRegistry/Cache.antt =====
-- `RedisCache` of services/business-registry/src/business_registry/registry.py over its
-- in-memory client. `dumps` and `loads` stand for `json.dumps` and for `json.loads` with the
-- construction of the result, where an exception is `none`. The expiry of a key is an operation
-- of its own.
use Prim.Native.String.{◌++◌}
use fraudnet.Prelude.{String, Option, none, some, ◌==◌, if◌then◌else◌}
use fraudnet.Prelude.Dict
use fraudnet.Prelude.Dict.{Dict}
use fraudnet.BusinessRegistry.Tables.{Lookup, not_matched}

abbrev pub ns_msisdn : String
ns_msisdn = "biz:msisdn:"

abbrev pub ns_shortcode : String
ns_shortcode = "biz:shortcode:"

abbrev pub neg_value : String
neg_value = "__none__"

abbrev pub msisdn_key : String → String
msisdn_key msisdn = ns_msisdn ++ msisdn

abbrev pub shortcode_key : (String → String) → String → String
shortcode_key upper code = ns_shortcode ++ upper code

pub record Json : Type 0 where
  pub dumps : Lookup → String
  pub loads : String → Option Lookup

-- `_get` of the value found
unfoldable pub decode : Json → Option String → Option Lookup
decode json none = none
decode json (some v) = if v == neg_value then some not_matched else json.loads v

abbrev pub get_key : Json → String → Dict String → Option Lookup
get_key json key cache = decode json (Dict.lookup key cache)

abbrev pub encode : Json → Lookup → String
encode json l = if l.matched then json.dumps l else neg_value

-- `_set`
unfoldable pub set_key : Json → String → Lookup → Dict String → Dict String
set_key json key l cache = Dict.insert key (encode json l) cache

-- `client.delete(key)`
abbrev pub invalidate : String → Dict String → Dict String
invalidate key cache = Dict.erase key cache
