-- ===== src/Tests/Deciding.antt =====
-- A policy of one rule, a signal, and what the services/decisions pipeline does with them.
use fraudnet.Prelude.{
  ℕ, ◌+◌, ◌≡◌, refl, String, Bool, true, false, Option, none, some, [], ◌∷◌, arith, ltb, or_zero,
  ◌==◌, eq_refl, if◌then◌else◌, Bool-cases, inl, inr,
}
use fraudnet.Prelude.Dict
use fraudnet.Prelude.Dict.{Dict, lookup-insert}
use mathlib.Core.List.{Sublistᴰ}
use fraudnet.Prelude.StringSet
use fraudnet.Prelude.Text.{concat}
use fraudnet.Prelude.Int.{ℤ, pos}
use fraudnet.Schemas.{LatencyTier, Severity, EntityKind, SignalEvent}
use fraudnet.Decisions.Policy.{
  Match, Rule, Default, Policy, evaluate_signal, default_outcome, matches_signal, all_truthy,
  first_match,
}
use fraudnet.Decisions.Matching.{Matches, IsFirst, evaluate_signal-IsFirst}
use fraudnet.Decisions.Dispatcher.{Call, Topics, ok}
use fraudnet.Decisions.Runner
use fraudnet.Decisions.Runner.{Service, Message, claim_key, signal_claim, evaluate, handle}
use fraudnet.Decisions.Suppression.{IsRedis, claim_redis}
use fraudnet.Decisions.Dedup.{handle_once}
use fraudnet.Decisions.Delivery.{IsAudited, run-IsAudited}
use fraudnet.Decisions.HotReload.{
  PolicyHotReloader, Load, validate, validate_rules, to_version, reload_now, reload_all,
}
use fraudnet.Decisions.Reloading.{IsLive, reload_all-IsLive, reload_now_unseen}

abbrev anything : Match
anything = record {
  signal_kind = none;
  motif = none;
  severity_in = none;
  score_gte = none;
  subject_kind = none;
  evidence_truthy = [];
}

abbrev hold : Rule
hold = record {
  id = "otp";
  matcher = anything;
  action = "otp.hold_and_alert";
  tier = LatencyTier.tier1_inline;
  suppression_window_s = pos 300;
}

abbrev log_only : Default
log_only = record {
  action = "log";
  tier = LatencyTier.tier3_investigation;
  suppression_window_s = pos 0;
}

abbrev policy : Policy
policy = record { id = "p"; version = "1"; rules = hold ∷ []; default = log_only }

abbrev revised : Policy
revised = record {
  id = "p";
  version = "2";
  rules = record hold { matcher = record anything { signal_kind = some "otp.during_call" } } ∷ [];
  default = log_only;
}

abbrev signal : SignalEvent
signal = record {
  event_id = "sig_1";
  tenant_id = "mtn-ghana";
  signal_kind = "otp.during_call";
  subject = record { kind = EntityKind.number; id = "+233200000002" };
  score = record { value = 97; model_id = "m"; model_version = "1"; computed_at_ms = 1 };
  severity = Severity.critical;
  evidence = [];
  suppression_key = some "k";
}

abbrev at : ℕ → Call
at ms = record {
  now_ms = ms;
  event_uuid = "a";
  decision_uuid = "b";
  audit_delivered = true;
  tier_delivered = false;
  claim_ms = some ms;
}

abbrev no_topics : Topics
no_topics = record { audit = []; tier1 = []; tier2 = []; tier3 = [] }

-- The keys of a Redis with the times at which they expire
abbrev expiry : Dict ℕ → String → ℕ
expiry r key = or_zero (Dict.lookup key r)

abbrev set_nx : Dict ℕ → ℕ → String → ℕ → Bool × Dict ℕ
set_nx r now key ttl =
    if ltb now (expiry r key) then (false, r) else (true, Dict.insert key (now + ttl) r)

expiry-insert :
    (r : Dict ℕ) (key other : String) (at : ℕ)
    → expiry (Dict.insert key at r) other ≡ (if key == other then at else expiry r other)
expiry-insert r key other at = elim (Bool-cases (key == other)) [
  | inl same ↦ rw (lookup-insert, same) refl
  | inr differs ↦ rw (lookup-insert, differs) refl
]

set_nx-IsRedis : IsRedis set_nx expiry
set_nx-IsRedis = record {
  held = λ r now key ttl live. ground (arith, live);
  sets = λ r now key ttl over. (
    ground (arith, over),
    ground (arith, over, expiry-insert r key key (now + ttl), eq_refl key),
  );
  others =
      λ r now key other ttl differs. ground (arith, differs, expiry-insert r key other (now + ttl));
}

abbrev store : Option ℕ → Dict ℕ → String → ℤ → Bool × Dict ℕ
store = claim_redis set_nx "decisions:supp"

abbrev service : Service (Dict ℕ)
service = record { policy = policy; dispatcher_policy = policy; store = []; topics = no_topics }

-- A digest and a configuration of producers.
abbrev digest : String → String
digest s = s

abbrev producers : LatencyTier → Bool
producers tier = true

evaluate_signal-IsFirst_example :
    IsFirst
      (λ m. Matches m signal)
      (hold ∷ [])
      (default_outcome policy)
      (evaluate_signal policy signal)
evaluate_signal-IsFirst_example = evaluate_signal-IsFirst policy signal

abbrev other : SignalEvent
other = record signal { suppression_key = some "other" }

-- The signal again, 299 999 ms after its claim at 1, with another one in between
handle_once_example :
    (let after =
        Runner.run store digest producers
          (handle store digest producers (at 1) service (Message.signal signal)).1
          ((at 400000, Message.signal other) ∷ []) in
      handle store digest producers (at 300000) after (Message.signal signal) ≡ (ok tt, after))
unfolding claim_key signal_claim evaluate_signal first_match matches_signal all_truthy evaluate
    Dict.lookup
handle_once_example =
    handle_once set_nx expiry set_nx-IsRedis "decisions:supp" digest producers (at 1) (at 300000)
      service (Message.signal signal) (Message.signal signal)
      ((at 400000, Message.signal other) ∷ []) (concat ("k" ∷ ":" ∷ "otp.hold_and_alert" ∷ [])) 1
      300000 refl refl refl (omega arith) refl (omega arith)

empty-IsAudited : IsAudited no_topics
empty-IsAudited = record {
  audited = elim [
    | LatencyTier.tier1_inline ↦ Sublistᴰ.slnil
    | LatencyTier.tier2_nrt ↦ Sublistᴰ.slnil
    | LatencyTier.tier3_investigation ↦ Sublistᴰ.slnil
  ];
  tiered = elim [
    | LatencyTier.tier1_inline ↦ tt
    | LatencyTier.tier2_nrt ↦ tt
    | LatencyTier.tier3_investigation ↦ tt
  ];
}

run-IsAudited_example :
    IsAudited
      (Runner.run store digest producers service ((at 1, Message.signal signal) ∷ [])).topics
run-IsAudited_example =
    run-IsAudited store digest producers service ((at 1, Message.signal signal) ∷ [])
      empty-IsAudited

abbrev reloader : PolicyHotReloader (Dict ℕ)
reloader = record { service = service; history = to_version digest policy 0 ("p.yaml" ∷ []) ∷ [] }

abbrev revision : Load
revision = record { parsed = some revised; now_ms = 5; files = "p.yaml" ∷ [] }

reloader-IsLive : IsLive digest 10 reloader
unfolding validate validate_rules StringSet.member
reloader-IsLive = record {
  agree = refl;
  valid = refl;
  bounded = omega arith;
  recorded = (0, "p.yaml" ∷ [], refl);
}

reload_all-IsLive_example : IsLive digest 10 (reload_all digest 10 reloader (revision ∷ []))
reload_all-IsLive_example = reload_all-IsLive digest 9 reloader (revision ∷ []) reloader-IsLive

reload_now_unseen_example : reload_now digest 10 reloader revision ≡ (none, reloader)
reload_now_unseen_example = reload_now_unseen digest 10 reloader revision revised refl refl
