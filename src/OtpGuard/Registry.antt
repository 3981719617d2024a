-- ===== src/OtpGuard/Registry.antt =====
-- services/brain-otp-guard/src/brain_otp_guard/registry.py: the in-memory registry of active calls
-- and the in-memory suppression store. The clocks' readings are arguments; a registry's are in
-- milliseconds, and a suppression store's in any unit in which its window is whole.
use fraudnet.Prelude.{ℕ, ◌+◌, String, Bool, true, false, Option, none, some, ltb, if◌then◌else◌}
use fraudnet.Prelude.Dict
use fraudnet.Prelude.Dict.{Dict}

pub record ActiveCall : Type 0 where
  pub callee : String
  pub caller : String
  pub started_at_ms : ℕ

-- `InMemoryActiveCallRegistry.start`
unfoldable pub start : String → String → ℕ → Dict ActiveCall → Dict ActiveCall
start callee caller started_at_ms calls =
    Dict.insert callee (record { callee = callee; caller = caller; started_at_ms = started_at_ms })
      calls

-- `InMemoryActiveCallRegistry.end`
unfoldable pub end : String → Dict ActiveCall → Dict ActiveCall
end callee calls = Dict.erase callee calls

-- `InMemoryActiveCallRegistry.get`, with the calls afterwards: an expired call is dropped
unfoldable pub get : ℕ → ℕ → String → Dict ActiveCall → Option ActiveCall × Dict ActiveCall
get ttl_ms now_ms callee calls = elim (Dict.lookup callee calls) [
  | none ↦ (none, calls)
  | some c ↦
      if ltb (c.started_at_ms + ttl_ms) now_ms
      then (none, Dict.erase callee calls)
      else (some c, calls)
]

-- `InMemorySuppressionStore.should_suppress`, with the times seen afterwards
unfoldable pub should_suppress : ℕ → ℕ → String → Dict ℕ → Bool × Dict ℕ
should_suppress window now key seen = elim (Dict.lookup key seen) [
  | none ↦ (false, Dict.insert key now seen)
  | some last ↦ if ltb now (last + window) then (true, seen) else (false, Dict.insert key now seen)
]
