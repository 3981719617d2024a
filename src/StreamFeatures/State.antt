-- ===== src/StreamFeatures/State.antt =====
-- pipeline.py: `_NumberState`, `_WalletState`, the windows, `_is_late`, `_prune_*`, `_compute_*`.
-- Times are milliseconds. `t < now - w` on Python's integers is `t + w < now` here, so that nothing
-- is cut off at 0. `int(n * 0.95)` is `n * 95 / 100`: the rounding error of the float product stays
-- far below the 0.05 that separates it from the next integer.
use fraudnet.Prelude.{
  ℕ, zero, suc, ◌+◌, ◌-◌, ◌*◌, ◌/◌, String, Bool, ◌&&◌, Option, none, some, List, [], ◌∷◌, map,
  length, filter, count, drop_while, ltb, leb, if◌then◌else◌,
}
use fraudnet.Prelude.Dict
use fraudnet.Prelude.Dict.{Dict}
use fraudnet.Prelude.StringSet

abbrev pub w1m : ℕ
w1m = 60 * 1000

abbrev pub w5m : ℕ
w5m = 5 * 60 * 1000

abbrev pub w1h : ℕ
w1h = 60 * 60 * 1000

abbrev pub w24h : ℕ
w24h = 24 * 60 * 60 * 1000

abbrev pub w7d : ℕ
w7d = 7 * 24 * 60 * 60 * 1000

abbrev pub w30d : ℕ
w30d = 30 * 24 * 60 * 60 * 1000

pub record NumberState : Type 0 where
  pub high_ts_ms : ℕ
  pub call_times : List ℕ
  pub callees_1h : List (ℕ × String)
  pub sms_times : List ℕ
  pub sms_template_hashes : List (ℕ × String)
  pub imeis_30d : Dict ℕ
  pub dns_query_times : List ℕ
  pub suspicious_dns_times : List ℕ
  pub data_volume_1h : List (ℕ × ℕ)
  pub data_volume_baseline : List (ℕ × ℕ)

pub record WalletState : Type 0 where
  pub high_ts_ms : ℕ
  pub txn_times : List ℕ
  pub counterparties_24h : List (ℕ × String)
  pub txn_amounts_24h : List (ℕ × ℕ)

abbrev pub new_number : NumberState
new_number = record {
  high_ts_ms = 0;
  call_times = [];
  callees_1h = [];
  sms_times = [];
  sms_template_hashes = [];
  imeis_30d = [];
  dns_query_times = [];
  suspicious_dns_times = [];
  data_volume_1h = [];
  data_volume_baseline = [];
}

abbrev pub new_wallet : WalletState
new_wallet = record {
  high_ts_ms = 0;
  txn_times = [];
  counterparties_24h = [];
  txn_amounts_24h = [];
}

-- The features that the pipeline computes; it leaves the other fields of the snapshot at their
-- defaults.
pub record NumberFeatures : Type 0 where
  pub msisdn : String
  pub velocity_1m : ℕ
  pub velocity_5m : ℕ
  pub velocity_1h : ℕ
  pub fanout_1h : ℕ
  pub imei_count : ℕ
  pub sms_freq_1h : ℕ
  pub sms_template_top : Option String
  pub dns_query_rate_1h : ℕ
  pub suspicious_domain_count_1h : ℕ
  pub data_volume_1h_bytes : ℕ
  pub data_volume_baseline_bytes : ℕ

pub record WalletFeatures : Type 0 where
  pub wallet_id : String
  pub txn_velocity_1h : ℕ
  pub counterparty_diversity_24h : ℕ
  pub value_p95_24h : ℕ

-- `NumberFeatures(msisdn=msisdn)`
abbrev pub no_number_features : String → NumberFeatures
no_number_features m = record {
  msisdn = m;
  velocity_1m = 0;
  velocity_5m = 0;
  velocity_1h = 0;
  fanout_1h = 0;
  imei_count = 0;
  sms_freq_1h = 0;
  sms_template_top = none;
  dns_query_rate_1h = 0;
  suspicious_domain_count_1h = 0;
  data_volume_1h_bytes = 0;
  data_volume_baseline_bytes = 0;
}

-- `WalletFeatures(wallet_id=wallet_id)`
abbrev pub no_wallet_features : String → WalletFeatures
no_wallet_features w = record {
  wallet_id = w;
  txn_velocity_1h = 0;
  counterparty_diversity_24h = 0;
  value_p95_24h = 0;
}

pub record FeaturePipeline : Type 0 where
  pub numbers : Dict NumberState
  pub wallets : Dict WalletState
  pub lateness : ℕ
  pub suspicious : List String
  pub late_events_dropped : ℕ

-- `t < now - w`
abbrev pub older : ℕ → ℕ → ℕ → Bool
older w now t = ltb (t + w) now

-- `high > 0 and (high - ts) > lateness`
unfoldable pub is_late : ℕ → ℕ → ℕ → Bool
is_late lateness high ts = ltb 0 high && ltb (ts + lateness) high

unfoldable pub prune_number : NumberState → ℕ → NumberState
prune_number ns now = record ns {
  call_times = drop_while (older w1h now) ns.call_times;
  callees_1h = drop_while (λ e. older w1h now e.0) ns.callees_1h;
  sms_times = drop_while (older w1h now) ns.sms_times;
  sms_template_hashes = drop_while (λ e. older w1h now e.0) ns.sms_template_hashes;
  imeis_30d = filter (λ e. leb now (e.1 + w30d)) ns.imeis_30d;
  dns_query_times = drop_while (older w1h now) ns.dns_query_times;
  suspicious_dns_times = drop_while (older w1h now) ns.suspicious_dns_times;
  data_volume_1h = drop_while (λ e. older w1h now e.0) ns.data_volume_1h;
  data_volume_baseline = drop_while (λ e. older w7d now e.0) ns.data_volume_baseline;
}

unfoldable pub prune_wallet : WalletState → ℕ → WalletState
prune_wallet ws now = record ws {
  txn_times = drop_while (older w1h now) ws.txn_times;
  counterparties_24h = drop_while (λ e. older w24h now e.0) ws.counterparties_24h;
  txn_amounts_24h = drop_while (λ e. older w24h now e.0) ws.txn_amounts_24h;
}

-- `template_counts[h] = template_counts.get(h, 0) + 1`, entry by entry
abbrev pub tally : Dict ℕ → List (ℕ × String) → Dict ℕ
tally counts [] = counts
tally counts ((_, h) ∷ es) = tally (Dict.insert h (suc (Dict.get_or h 0 counts)) counts) es

-- `max(items, key=lambda kv: kv[1])[0]`: the first of the largest
abbrev pub top_of : String → ℕ → Dict ℕ → String
top_of best n [] = best
top_of best n ((h, m) ∷ counts) =
    top_of (if ltb n m then h else best) (if ltb n m then m else n) counts

abbrev pub top_template : Dict ℕ → Option String
top_template [] = none
top_template ((h, n) ∷ counts) = some (top_of h n counts)

-- `sum(b for _, b in entries)`
abbrev pub total : List (ℕ × ℕ) → ℕ
total [] = 0
total ((_, b) ∷ es) = b + total es

unfoldable pub compute_number_features : String → NumberState → ℕ → NumberFeatures
compute_number_features m ns now = record {
  msisdn = m;
  velocity_1m = count (λ t. ltb now (t + w1m)) ns.call_times;
  velocity_5m = count (λ t. ltb now (t + w5m)) ns.call_times;
  velocity_1h = length ns.call_times;
  fanout_1h =
      length (StringSet.of_list (map (λ e. e.1) (filter (λ e. ltb now (e.0 + w1h)) ns.callees_1h)));
  imei_count = length ns.imeis_30d;
  sms_freq_1h = length ns.sms_times;
  sms_template_top = top_template (tally [] ns.sms_template_hashes);
  dns_query_rate_1h = length ns.dns_query_times;
  suspicious_domain_count_1h = length ns.suspicious_dns_times;
  data_volume_1h_bytes = total ns.data_volume_1h;
  data_volume_baseline_bytes = total ns.data_volume_baseline / 168;
}

-- `sorted(amounts)`
abbrev pub place : ℕ → List ℕ → List ℕ
place a [] = a ∷ []
place a (b ∷ bs) = if leb a b then a ∷ b ∷ bs else b ∷ place a bs

abbrev pub sorted : List ℕ → List ℕ
sorted [] = []
sorted (a ∷ as') = place a (sorted as')

-- `amounts[i]`, for an index in range
abbrev pub nth : List ℕ → ℕ → ℕ
nth [] i = 0
nth (a ∷ as') zero = a
nth (a ∷ as') (suc i) = nth as' i

-- The 95th percentile of the amounts, and 0 of none: `amounts[max(0, int(len(amounts) * 0.95) -
-- 1)]`.
unfoldable pub p95 : List ℕ → ℕ
p95 amounts = nth (sorted amounts) (length amounts * 95 / 100 - 1)

unfoldable pub compute_wallet_features : String → WalletState → ℕ → WalletFeatures
unfolding p95
compute_wallet_features w ws now = record {
  wallet_id = w;
  txn_velocity_1h = length ws.txn_times;
  counterparty_diversity_24h = length (StringSet.of_list (map (λ e. e.1) ws.counterparties_24h));
  value_p95_24h = p95 (map (λ e. e.1) ws.txn_amounts_24h);
}
