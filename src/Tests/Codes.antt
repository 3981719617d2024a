-- ===== src/Tests/Codes.antt =====
-- A code asked for once and given twice, for services/api-customer/src/api_customer/otp.py.
use fraudnet.Prelude.{◌≤◌, ◌≡◌, refl, String, List, [], ◌∷◌}
use fraudnet.Prelude.Dict
use fraudnet.CustomerOtp.Adapters.{
  Event, Session, requested, verified, expired, new_session, run, step, request, verify,
  check_stored,
}
use fraudnet.CustomerOtp.OneShot.{times, run-accepted}

abbrev caller : String
caller = "233241"

abbrev events : List Event
events =
    verified caller "771204"
    ∷ requested caller "771204"
    ∷ verified caller "000000"
    ∷ verified caller "771204"
    ∷ verified caller "771204"
    ∷ requested caller "550123"
    ∷ expired caller
    ∷ verified caller "550123"
    ∷ []

abbrev after : Session
after = run (new_session "customer:otp") events

accepted_once : after.accepted ≡ (caller, "771204") ∷ []
unfolding run step request verify check_stored Dict.lookup Dict.erase Dict.insert
accepted_once = refl

run-accepted_example :
    times caller "771204" (run (new_session "customer:otp") events).accepted
    ≤ times caller "771204" (run (new_session "customer:otp") events).issued
run-accepted_example = run-accepted "customer:otp" events caller "771204"
