-- ===== src/CustomerOtp/Adapters.antt =====
-- services/api-customer/src/api_customer/otp.py: the adapters in memory, over Redis and over
-- HTTP. The code of `secrets` and the replies of the HTTP service are inputs. `expire` is the
-- end of a key's time to live.
use Prim.Native.String.{◌++◌}
use fraudnet.Prelude.{
  ℕ, String, Bool, true, false, ◌&&◌, Option, none, some, List, [], ◌∷◌, ◌==◌, ltb, leb,
  if◌then◌else◌,
}
use fraudnet.Prelude.Dict
use fraudnet.Prelude.Dict.{Dict}
use fraudnet.Prelude.StringSet

abbrev pub dev_code : String
dev_code = "123456"

-- `InMemoryOtpAdapter`: the numbers that a code was issued for. A request is always delivered.
unfoldable pub request_memory : String → List String → Bool × List String
request_memory msisdn issued = (true, StringSet.add msisdn issued)

unfoldable pub verify_memory : String → String → List String → Bool × List String
verify_memory msisdn code issued =
    if StringSet.member msisdn issued
    then if code == dev_code then (true, StringSet.discard msisdn issued) else (false, issued)
    else (false, issued)

-- `RedisOtpAdapter`
pub record RedisOtp : Type 0 where
  pub namespace : String
  pub store : Dict String

-- f"{self._ns}:{msisdn}"
abbrev pub otp_key : String → String → String
otp_key namespace msisdn = namespace ++ (":" ++ msisdn)

unfoldable pub request : String → String → RedisOtp → Bool × RedisOtp
request msisdn code r =
    (true, record r { store = Dict.insert (otp_key r.namespace msisdn) code r.store })

unfoldable pub check_stored : String → String → RedisOtp → Option String → Bool × RedisOtp
check_stored msisdn code r none = (false, r)
check_stored msisdn code r (some stored) =
    if stored == code
    then (true, record r { store = Dict.erase (otp_key r.namespace msisdn) r.store })
    else (false, r)

unfoldable pub verify : String → String → RedisOtp → Bool × RedisOtp
verify msisdn code r = check_stored msisdn code r (Dict.lookup (otp_key r.namespace msisdn) r.store)

abbrev pub expire : String → RedisOtp → RedisOtp
expire msisdn r = record r { store = Dict.erase (otp_key r.namespace msisdn) r.store }

-- `HttpOtpAdapter`, by the status and the `verified` of the reply
unfoldable pub request_http : ℕ → Bool
request_http status = ltb status 400

unfoldable pub verify_http : ℕ → Bool → Bool
verify_http status verified = leb status 200 && (leb 200 status && verified)

pub data Event : Type 0 where
  requested verified : String → String → Event
  expired : String → Event

-- The adapter with the requests and the verifications that succeeded, the last one first
pub record Session : Type 0 where
  pub adapter : RedisOtp
  pub issued : List (String × String)
  pub accepted : List (String × String)

unfoldable pub step : Session → Event → Session
step s (requested msisdn code) = record s {
  adapter = (request msisdn code s.adapter).1;
  issued = (msisdn, code) ∷ s.issued;
}
step s (verified msisdn code) =
    let answer = verify msisdn code s.adapter in
    record s {
      adapter = answer.1;
      accepted = if answer.0 then (msisdn, code) ∷ s.accepted else s.accepted;
    }
step s (expired msisdn) = record s { adapter = expire msisdn s.adapter }

unfoldable pub run : Session → List Event → Session
run s [] = s
run s (e ∷ es) = run (step s e) es

abbrev pub new_session : String → Session
new_session namespace = record {
  adapter = record { namespace = namespace; store = [] };
  issued = [];
  accepted = [];
}
