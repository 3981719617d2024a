-- ===== src/BrainGraph/Motifs.antt =====
-- The motifs of calls, texts, payments and queries of
-- services/brain-graph/src/brain_graph/motifs.py. `int_of` is Python's `int(x or 0)` of a
-- property that may be missing, and `text_of` its `str(x or "")`.
use fraudnet.Prelude.{
  ℕ, ◌+◌, ◌-◌, ◌/◌, String, Bool, true, false, Option, none, some, List, [], ◌∷◌, ltb, leb, ◌&&◌,
  ◌||◌, ◌==◌, if◌then◌else◌,
}
use fraudnet.Prelude.Dict
use fraudnet.Prelude.Members.{flat_map, first}
use fraudnet.Prelude.Groups.{Groups, find}
use fraudnet.Prelude.StringSet.{member}
use fraudnet.Schemas.{Primitive, str, int}
use fraudnet.BrainGraph.Subgraph.{
  GraphEdge, Subgraph, MotifMatch, Endpoints, edges_of, by_endpoints, outgoing_dst_ids,
  outgoing_edges, same_endpoints,
}

abbrev pub is_empty {ℓ} : {A : Type ℓ} → List A → Bool
is_empty [] = true
is_empty (_ ∷ _) = false

-- `0 < (e.ts_ms - ts) <= window`
abbrev pub follows : ℕ → ℕ → GraphEdge → Bool
follows ts window e = ltb ts e.ts_ms && leb e.ts_ms (ts + window)

module _ (int_of : Option Primitive → ℕ) where
  -- The match of one wallet, if a payment follows the text.
  unfoldable pub fingerprint_match :
      Endpoints → GraphEdge → GraphEdge → String → Option GraphEdge → List MotifMatch
  fingerprint_match (caller, callee) c s w none = []
  fingerprint_match (caller, callee) c s w (some e) =
      record {
        motif = "voice_sms_momo_24h";
        members =
            ("Number", caller) ∷ ("Number", callee) ∷ ("Wallet", w) ∷ ("Wallet", e.dst_id) ∷ [];
        confidence = 90;
        evidence =
            ("call_ts_ms", int c.ts_ms)
            ∷ ("sms_ts_ms", int s.ts_ms)
            ∷ ("send_ts_ms", int e.ts_ms)
            ∷ ("amount_minor", int (int_of (Dict.lookup "amount" e.properties)))
            ∷ ("lag_call_to_sms_s", int ((s.ts_ms - c.ts_ms) / 1000))
            ∷ ("lag_sms_to_send_s", int ((e.ts_ms - s.ts_ms) / 1000))
            ∷ [];
      }
      ∷ []

  -- The matches of one call, if a text follows it.
  unfoldable pub call_matches :
      ℕ
      → Groups String GraphEdge
      → List String
      → Endpoints
      → GraphEdge
      → Option GraphEdge
      → List MotifMatch
  call_matches window sends wallets pair c none = []
  call_matches window sends wallets pair c (some s) =
      flat_map
        (λ w. fingerprint_match pair c s w (first (follows s.ts_ms window) (find ◌==◌ w sends)))
        wallets

  unfoldable pub pair_matches :
      ℕ
      → ℕ
      → Groups Endpoints GraphEdge
      → Groups String String
      → Groups String GraphEdge
      → Endpoints × List GraphEdge
      → List MotifMatch
  pair_matches sms_window momo_window smses owns sends (pair, calls) =
      let sms_edges = find same_endpoints pair smses in
      let wallets = find ◌==◌ pair.1 owns in
      if is_empty sms_edges
      then []
      else if is_empty wallets
      then []
      else flat_map
          (λ c.
            call_matches momo_window sends wallets pair c
              (first (follows c.ts_ms sms_window) sms_edges))
          calls

  unfoldable pub detect_voice_sms_momo_24h : Subgraph → ℕ → ℕ → List MotifMatch
  detect_voice_sms_momo_24h sg sms_window momo_window =
      flat_map
        (pair_matches sms_window momo_window (by_endpoints (edges_of sg "SMSED"))
          (outgoing_dst_ids (edges_of sg "OWNS") "Number" "Wallet")
          (outgoing_edges (edges_of sg "SENT") "Wallet" "Wallet"))
        (by_endpoints (edges_of sg "CALLED"))

  -- `e.dst_id in callee_wallets and min <= (e.ts_ms - c.ts_ms) <= max`
  abbrev pub pays : ℕ → ℕ → List String → GraphEdge → GraphEdge → Bool
  pays least most callee_wallets c e =
      member e.dst_id callee_wallets
      && (leb (c.ts_ms + least) e.ts_ms && leb e.ts_ms (c.ts_ms + most))

  unfoldable pub payment_match : Endpoints → GraphEdge → String → Option GraphEdge → List MotifMatch
  payment_match (caller, callee) c cw none = []
  payment_match (caller, callee) c cw (some e) =
      record {
        motif = "voice_then_momo_30m";
        members =
            ("Number", caller) ∷ ("Number", callee) ∷ ("Wallet", cw) ∷ ("Wallet", e.dst_id) ∷ [];
        confidence = 92;
        evidence =
            ("call_ts_ms", int c.ts_ms)
            ∷ ("send_ts_ms", int e.ts_ms)
            ∷ ("lag_call_to_send_s", int ((e.ts_ms - c.ts_ms) / 1000))
            ∷ ("amount_minor", int (int_of (Dict.lookup "amount" e.properties)))
            ∷ ("call_duration_s", int (int_of (Dict.lookup "duration" c.properties)))
            ∷ [];
      }
      ∷ []

  unfoldable pub payments_of :
      ℕ
      → ℕ
      → Groups String String
      → Groups String GraphEdge
      → Endpoints × List GraphEdge
      → List MotifMatch
  payments_of least most owns sends (pair, calls) =
      let caller_wallets = find ◌==◌ pair.0 owns in
      let callee_wallets = find ◌==◌ pair.1 owns in
      if is_empty caller_wallets || is_empty callee_wallets
      then []
      else flat_map
          (λ c.
            flat_map
              (λ cw.
                payment_match pair c cw
                  (first (pays least most callee_wallets c) (find ◌==◌ cw sends)))
              caller_wallets)
          calls

  unfoldable pub detect_voice_then_momo_30m : Subgraph → ℕ → ℕ → List MotifMatch
  detect_voice_then_momo_30m sg most least =
      flat_map
        (payments_of least most (outgoing_dst_ids (edges_of sg "OWNS") "Number" "Wallet")
          (outgoing_edges (edges_of sg "SENT") "Wallet" "Wallet"))
        (by_endpoints (edges_of sg "CALLED"))

module _ (text_of : Option Primitive → String) where
  unfoldable pub lure_match : Endpoints → GraphEdge → Option GraphEdge → List MotifMatch
  lure_match (sender, recipient) s none = []
  lure_match (sender, recipient) s (some hit) =
      record {
        motif = "sms_url_blocklist";
        members = ("Number", sender) ∷ ("Number", recipient) ∷ ("Domain", hit.dst_id) ∷ [];
        confidence = 94;
        evidence =
            ("sms_ts_ms", int s.ts_ms)
            ∷ ("query_ts_ms", int hit.ts_ms)
            ∷ ("lag_sms_to_query_s", int ((hit.ts_ms - s.ts_ms) / 1000))
            ∷ ("domain", str hit.dst_id)
            ∷ ("template_hash", str (text_of (Dict.lookup "template_hash" s.properties)))
            ∷ [];
      }
      ∷ []

  unfoldable pub lures_of :
      List String → ℕ → Groups String GraphEdge → Endpoints × List GraphEdge → List MotifMatch
  lures_of flagged window queries (pair, smses) =
      let recipient_queries = find ◌==◌ pair.1 queries in
      if is_empty recipient_queries
      then []
      else flat_map
          (λ s.
            lure_match pair s
              (first (λ q. member q.dst_id flagged && follows s.ts_ms window q) recipient_queries))
          smses

  unfoldable pub detect_sms_url_blocklist : Subgraph → List String → ℕ → List MotifMatch
  detect_sms_url_blocklist sg flagged window =
      if is_empty flagged
      then []
      else flat_map
          (lures_of flagged window (outgoing_edges (edges_of sg "QUERIED") "Number" "Domain"))
          (by_endpoints (edges_of sg "SMSED"))
