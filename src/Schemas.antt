-- ===== src/Schemas.antt =====
-- packages/schemas/src/fraudnet/schemas: the event types of the Kafka spine (events.py), the
-- signals (signals.py) and the domain enumerations (types.py). Numbers that the schema bounds below
-- by 0 are natural numbers. A score is a float between 0 and 1: it is held as the natural number of
-- units of 2^-1074 that it is, so that comparisons are exact (no module here adds or scales one).
use fraudnet.Prelude.{ℕ, String, Bool, true, false, Option, List}
use fraudnet.Prelude.Dict.{Dict}

pub data EntityKind : Type 0 where
  number wallet device account url : EntityKind

pub data Severity : Type 0 where
  critical high medium low : Severity

pub data LatencyTier : Type 0 where
  tier1_inline tier2_nrt tier3_investigation : LatencyTier

pub record Subject : Type 0 where
  pub kind : EntityKind
  pub id : String

-- The value of an evidence or metadata entry: `str | int | float | bool`.
pub data Primitive : Type 0 where
  str : String → Primitive
  int : ℕ → Primitive
  float : ℕ → Primitive
  bool : Bool → Primitive
  -- -(n + 1) of its kind
  negative_int negative_float : ℕ → Primitive

pub record RiskScore : Type 0 where
  pub value : ℕ
  pub model_id : String
  pub model_version : String
  pub computed_at_ms : ℕ

pub data VoiceKind : Type 0 where
  call_start call_end registration handover : VoiceKind

pub record VoiceEvent : Type 0 where
  pub event_id : String
  pub event_ts_ms : ℕ
  pub ingest_ts_ms : ℕ
  pub tenant_id : String
  pub kind : VoiceKind
  pub caller : String
  pub callee : Option String
  pub imei : Option String
  pub duration_s : Option ℕ

pub data SmsKind : Type 0 where
  mt mo mt_delivery_receipt : SmsKind

pub record SmsEvent : Type 0 where
  pub event_id : String
  pub event_ts_ms : ℕ
  pub ingest_ts_ms : ℕ
  pub tenant_id : String
  pub kind : SmsKind
  pub sender : String
  pub recipient : String
  pub body : Option String
  pub template_hash : Option String
  pub short_code : Option String
  pub smsc_id : Option String

pub data DataKind : Type 0 where
  dns_query dns_response ipdr_session : DataKind

pub record DataEvent : Type 0 where
  pub event_id : String
  pub event_ts_ms : ℕ
  pub ingest_ts_ms : ℕ
  pub kind : DataKind
  pub msisdn : Option String
  pub domain : Option String
  pub rdata : Option String
  pub bytes_up : Option ℕ
  pub bytes_down : Option ℕ

pub data MoMoEventType : Type 0 where
  p2p_transfer cash_in cash_out bill_payment merchant_payment : MoMoEventType
  bank_transfer international_remittance reversal : MoMoEventType

pub data CounterpartyKind : Type 0 where
  to_wallet bank merchant agent external : CounterpartyKind

pub record MoMoEvent : Type 0 where
  pub event_id : String
  pub event_ts_ms : ℕ
  pub ingest_ts_ms : ℕ
  pub kind : MoMoEventType
  pub sender_wallet_id : Option String
  pub recipient_wallet_id : Option String
  pub sender_msisdn : Option String
  pub recipient_msisdn : Option String
  pub amount_minor : ℕ
  pub counterparty_kind : CounterpartyKind
  pub counterparty_account_hash : Option String

pub record SignalEvent : Type 0 where
  pub event_id : String
  pub tenant_id : String
  pub signal_kind : String
  pub subject : Subject
  pub score : RiskScore
  pub severity : Severity
  pub evidence : Dict Primitive
  pub suppression_key : Option String

pub record MotifDetected : Type 0 where
  pub event_id : String
  pub tenant_id : String
  pub motif : String
  pub members : List Subject
  pub score : Option RiskScore

pub record DecisionDispatched : Type 0 where
  pub event_id : String
  pub event_ts_ms : ℕ
  pub ingest_ts_ms : ℕ
  pub source : String
  pub tenant_id : String
  pub decision_id : String
  pub tier : LatencyTier
  pub action : String
  pub subject : Subject
  pub severity : Severity
  pub score : Option RiskScore
  pub policy_id : String
  pub policy_version : String
  pub suppression_key : Option String
  pub metadata : Dict Primitive

-- The values of the string enumerations, as they stand in keys and comparisons.
abbrev pub entity_value : EntityKind → String
entity_value EntityKind.number = "number"
entity_value EntityKind.wallet = "wallet"
entity_value EntityKind.device = "device"
entity_value EntityKind.account = "account"
entity_value EntityKind.url = "url"

abbrev pub tier_value : LatencyTier → String
tier_value LatencyTier.tier1_inline = "tier1"
tier_value LatencyTier.tier2_nrt = "tier2"
tier_value LatencyTier.tier3_investigation = "tier3"

-- `==` on the enumerations
abbrev pub severity_eq : Severity → Severity → Bool
severity_eq Severity.critical Severity.critical = true
severity_eq Severity.high Severity.high = true
severity_eq Severity.medium Severity.medium = true
severity_eq Severity.low Severity.low = true
severity_eq _ _ = false

abbrev pub tier_eq : LatencyTier → LatencyTier → Bool
tier_eq LatencyTier.tier1_inline LatencyTier.tier1_inline = true
tier_eq LatencyTier.tier2_nrt LatencyTier.tier2_nrt = true
tier_eq LatencyTier.tier3_investigation LatencyTier.tier3_investigation = true
tier_eq _ _ = false
