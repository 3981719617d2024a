-- ===== src/BrainGraph/Fingerprints.antt =====
-- The evidence behind the matches of calls, texts and payments, for `detect_voice_sms_momo_24h`
-- and `detect_voice_then_momo_30m` of services/brain-graph/src/brain_graph/motifs.py.
use mathlib.Core.List.{Memᴰ}
use mathlib.Core.List.Memᴰ
use fraudnet.Prelude.{
  ℕ, ◌+◌, ◌≤◌, ◌<◌, ◌≡◌, ◌∙◌, refl, sym, ap, String, true, Option, none, some, [], ◌∷◌, ◌==◌,
  eq_iff, arith,
}
use fraudnet.Prelude.Members.{All-Mem, Mem-flat_map, if-Mem, first, first-Mem}
use fraudnet.Prelude.Groups.{Groups, find, find-Under}
use fraudnet.Schemas.{Primitive}
use fraudnet.BrainGraph.Subgraph.{
  GraphEdge, Subgraph, MotifMatch, Endpoints, edges_of, same_endpoints, endpoints, by_endpoints,
  outgoing_dst_ids, outgoing_edges,
}
use fraudnet.BrainGraph.Indices.{
  InGraph, edges_of-InGraph, Holds, Leaves, Reaches, same_endpoints_iff, by_endpoints-Under,
  outgoing_edges-Under, outgoing_dst_ids-Under,
}
use fraudnet.BrainGraph.Motifs.{
  follows, fingerprint_match, call_matches, pair_matches, detect_voice_sms_momo_24h,
}

-- The chain of a call, a text, a wallet of the callee and a payment from it.
pub record IsFingerprint (sg : Subgraph) (sms_window momo_window : ℕ) (m : MotifMatch)
    : Type 0 where
  pub call : GraphEdge
  pub text : GraphEdge
  pub owns : GraphEdge
  pub sent : GraphEdge
  pub calls : InGraph sg "CALLED" call
  pub texts : InGraph sg "SMSED" text
  pub owning : InGraph sg "OWNS" owns
  pub sending : InGraph sg "SENT" sent
  pub same_pair : (text.src_id ≡ call.src_id) × (text.dst_id ≡ call.dst_id)
  pub callee_owns :
      (owns.src_kind ≡ "Number") × (owns.dst_kind ≡ "Wallet") × (owns.src_id ≡ call.dst_id)
  pub wallet_sends :
      (sent.src_kind ≡ "Wallet") × (sent.dst_kind ≡ "Wallet") × (sent.src_id ≡ owns.dst_id)
  pub text_in_time : (call.ts_ms < text.ts_ms) × (text.ts_ms ≤ call.ts_ms + sms_window)
  pub sent_in_time : (text.ts_ms < sent.ts_ms) × (sent.ts_ms ≤ text.ts_ms + momo_window)
  pub named :
      m.members
      ≡ ("Number", call.src_id)
        ∷ ("Number", call.dst_id)
        ∷ ("Wallet", owns.dst_id)
        ∷ ("Wallet", sent.dst_id)
        ∷ []

follows_time :
    (ts window : ℕ) (e : GraphEdge)
    → follows ts window e ≡ true
    → (ts < e.ts_ms) × (e.ts_ms ≤ ts + window)
follows_time ts window e h = ground arith

module _ (sg : Subgraph) (int_of : Option Primitive → ℕ) (sms_window momo_window : ℕ) where
  abbrev smses : Groups Endpoints GraphEdge
  smses = by_endpoints (edges_of sg "SMSED")

  abbrev owned : Groups String String
  owned = outgoing_dst_ids (edges_of sg "OWNS") "Number" "Wallet"

  abbrev sends : Groups String GraphEdge
  sends = outgoing_edges (edges_of sg "SENT") "Wallet" "Wallet"

  abbrev IsMatch : MotifMatch → Type 0
  IsMatch = IsFingerprint sg sms_window momo_window

  module _ (caller callee : String) (c : GraphEdge)
      (held : Holds endpoints (edges_of sg "CALLED") (caller, callee) c) where
    wallet-IsMatch :
        (s : GraphEdge)
        → Memᴰ s (find same_endpoints (caller, callee) smses)
        → follows c.ts_ms sms_window s ≡ true
        → (w : String) → Memᴰ w (find ◌==◌ callee owned)
        → (o : Option GraphEdge) → first (follows s.ts_ms momo_window) (find ◌==◌ w sends) ≡ o
        → {m : MotifMatch} → Memᴰ m (fingerprint_match int_of (caller, callee) c s w o)
        → IsMatch m
    unfolding fingerprint_match
    wallet-IsMatch s in_s time w in_w none found i = absurd (Memᴰ.not-nil i)
    wallet-IsMatch s in_s time w in_w (some e) found i =
        let text =
          All-Mem (Holds endpoints (edges_of sg "SMSED") (caller, callee)) _
            (find-Under same_endpoints same_endpoints_iff _ (caller, callee) smses
              (by_endpoints-Under (edges_of sg "SMSED")))
            in_s in
        let own =
          All-Mem (Reaches (edges_of sg "OWNS") "Number" "Wallet" callee) _
            (find-Under ◌==◌ eq_iff _ callee owned
              (outgoing_dst_ids-Under (edges_of sg "OWNS") "Number" "Wallet"))
            in_w in
        let hit = first-Mem (follows s.ts_ms momo_window) (find ◌==◌ w sends) found in
        let sent =
          All-Mem (Leaves (edges_of sg "SENT") "Wallet" "Wallet" w) _
            (find-Under ◌==◌ eq_iff _ w sends
              (outgoing_edges-Under (edges_of sg "SENT") "Wallet" "Wallet"))
            hit.0 in
        record {
          call = c;
          text = s;
          owns = own.0;
          sent = e;
          calls = edges_of-InGraph sg "CALLED" held.0;
          texts = edges_of-InGraph sg "SMSED" text.0;
          owning = edges_of-InGraph sg "OWNS" own.1.0;
          sending = edges_of-InGraph sg "SENT" sent.0;
          same_pair = (ap (λ p. p.0) (text.1 ∙ sym held.1), ap (λ p. p.1) (text.1 ∙ sym held.1));
          callee_owns = (own.1.1, own.1.2, own.1.3 ∙ sym (ap (λ p. p.1) held.1));
          wallet_sends = (sent.1, sent.2, sent.3 ∙ sym own.2);
          text_in_time = follows_time c.ts_ms sms_window s time;
          sent_in_time = follows_time s.ts_ms momo_window e hit.1;
          named = ap (λ (x : MotifMatch). x.members) (Memᴰ.eq_of_singleton i) ∙ λ j.
              ("Number", (sym held.1 j).0)
              ∷ ("Number", (sym held.1 j).1)
              ∷ ("Wallet", sym own.2 j)
              ∷ ("Wallet", e.dst_id)
              ∷ [];
        }

    text-IsMatch :
        (o : Option GraphEdge)
        → first (follows c.ts_ms sms_window) (find same_endpoints (caller, callee) smses) ≡ o
        → {m : MotifMatch}
        → Memᴰ m
            (call_matches int_of momo_window sends (find ◌==◌ callee owned) (caller, callee) c o)
        → IsMatch m
    unfolding call_matches
    text-IsMatch none found i = absurd (Memᴰ.not-nil i)
    text-IsMatch (some s) found i =
        let r = Mem-flat_map _ (find ◌==◌ callee owned) i in
        let hit = first-Mem (follows c.ts_ms sms_window) _ found in
        wallet-IsMatch s hit.0 hit.1 r.0 r.1 _ refl r.2

-- Every match of the pattern names the ends of a call, of a text between the same two numbers
-- that follows it within the first window, a wallet that the callee owns, and the wallet to
-- which that one sent a payment after the text and within the second window, each an edge of the
-- snapshot.
pub detect_voice_sms_momo_24h-IsFingerprint :
    (sg : Subgraph) (int_of : Option Primitive → ℕ) (sms_window momo_window : ℕ) {m : MotifMatch}
    → Memᴰ m (detect_voice_sms_momo_24h int_of sg sms_window momo_window)
    → IsFingerprint sg sms_window momo_window m
unfolding detect_voice_sms_momo_24h pair_matches
detect_voice_sms_momo_24h-IsFingerprint sg int_of sms_window momo_window {m} i =
    let r = Mem-flat_map _ (by_endpoints (edges_of sg "CALLED")) i in
    let calls = All-Mem _ _ (by_endpoints-Under (edges_of sg "CALLED")) r.1 in
    let body = (if-Mem _ _ (if-Mem _ _ r.2).1).1 in
    let call = Mem-flat_map _ r.0.1 body in
    text-IsMatch sg int_of sms_window momo_window r.0.0.0 r.0.0.1 call.0
      (All-Mem _ r.0.1 calls call.1) _ refl call.2
