-- ===== src/BrainGraph/Devices.antt =====
-- The motifs of shared devices and of bursts of services/brain-graph/src/brain_graph/motifs.py.
-- A confidence is in hundredths.
use Prim.Native.String.{compare}
use Prim.Native.Nat.{Ordering}
use fraudnet.Prelude.{
  ℕ, ◌+◌, ◌-◌, ◌*◌, min, String, Bool, true, false, not, Option, List, [], ◌∷◌, ◌++◌, ltb, leb,
  ◌&&◌, ◌||◌, ◌==◌, if◌then◌else◌, length, filter, map,
}
use fraudnet.Prelude.Dict
use fraudnet.Prelude.Dict.{Dict}
use fraudnet.Prelude.StringSet
use fraudnet.Prelude.Members.{flat_map, sort_by}
use fraudnet.Prelude.Groups.{Groups, find, group}
use fraudnet.Schemas.{Primitive, str, int}
use fraudnet.BrainGraph.Motifs.{is_empty}
use fraudnet.BrainGraph.Subgraph.{
  GraphEdge, Subgraph, MotifMatch, edges_of, joins, outgoing_dst_ids, sort_groups,
}

-- `sorted` of texts
abbrev pub sorted : List String → List String
sorted = sort_by (λ y x. elim (compare y x) [ Ordering.lt ↦ true | _ ↦ false ])

-- `by_device[e.dst_id].add(e.src_id)`
abbrev pub add_user : GraphEdge → Dict (List String) → Dict (List String)
add_user e d = Dict.insert e.dst_id (StringSet.add e.src_id (Dict.get_or e.dst_id [] d)) d

unfoldable pub users_by_device : List GraphEdge → Dict (List String) → Dict (List String)
users_by_device [] d = d
users_by_device (e ∷ es) d =
    users_by_device es (if joins "Number" "Device" e then add_user e d else d)

unfoldable pub carousel : ℕ → String × List String → List MotifMatch
carousel least (device, numbers) =
    if ltb (length numbers) least
    then []
    else record {
      motif = "sim_carousel";
      members = ("Device", device) ∷ map (λ n. ("Number", n)) (sorted numbers);
      confidence = min 95 (55 + 10 * (length numbers - least));
      evidence = ("numbers_per_device", int (length numbers)) ∷ ("device_id", str device) ∷ [];
    }
      ∷ []

unfoldable pub detect_sim_carousels : Subgraph → ℕ → List MotifMatch
detect_sim_carousels sg least = flat_map (carousel least) (users_by_device (edges_of sg "USED") [])

-- `for e in sg.edges_of("SENT"): sending_wallets.add(e.src_id)`
unfoldable pub sending_wallets : List GraphEdge → List String → List String
sending_wallets [] s = s
sending_wallets (e ∷ es) s =
    sending_wallets es (if e.src_kind == "Wallet" then StringSet.add e.src_id s else s)

unfoldable pub active_wallets :
    Groups String String → List String → Bool → List String → List String
active_wallets owns sending require numbers =
    flat_map (λ n. filter (λ w. not require || StringSet.member w sending) (find ◌==◌ n owns))
      numbers

unfoldable pub fusion :
    Groups String String → List String → ℕ → Bool → String × List String → List MotifMatch
fusion owns sending least require (device, numbers) =
    let wallets = active_wallets owns sending require numbers in
    if ltb (length numbers) least
    then []
    else if require && is_empty wallets
    then []
    else record {
      motif = "device_sim_wallet_fusion";
      members =
          ("Device", device)
          ∷ (map (λ n. ("Number", n)) (sorted numbers)
              ++ map (λ w. ("Wallet", w)) (sorted (StringSet.of_list wallets)));
      confidence = min 95 (70 + 5 * (length numbers - least));
      evidence =
          ("device_id", str device)
          ∷ ("numbers_per_device", int (length numbers))
          ∷ ("active_wallet_count", int (length (StringSet.of_list wallets)))
          ∷ [];
    }
      ∷ []

unfoldable pub detect_device_sim_wallet_fusion : Subgraph → ℕ → Bool → List MotifMatch
detect_device_sim_wallet_fusion sg least require =
    flat_map
      (fusion (outgoing_dst_ids (edges_of sg "OWNS") "Number" "Wallet")
        (sending_wallets (edges_of sg "SENT") []) least require)
      (users_by_device (edges_of sg "USED") [])

pub record BustLimits : Type 0 where
  pub dormancy_window : ℕ
  pub burst_window : ℕ
  pub dormancy_max_txns : ℕ
  pub burst_min_txns : ℕ
  pub burst_min_total : ℕ

-- `edges[-1].ts_ms`; no list of a group is empty.
abbrev pub latest : List GraphEdge → ℕ
latest [] = 0
latest (e ∷ []) = e.ts_ms
latest (e ∷ f ∷ es) = latest (f ∷ es)

abbrev pub total_amount : (Option Primitive → ℕ) → List GraphEdge → ℕ
total_amount int_of [] = 0
total_amount int_of (e ∷ es) = int_of (Dict.lookup "amount" e.properties) + total_amount int_of es

-- Is a transaction within the burst that ends at a time?
abbrev pub in_burst : BustLimits → ℕ → GraphEdge → Bool
in_burst l last e = leb last (e.ts_ms + l.burst_window)

-- Is it before the burst and not before the dormancy window?
abbrev pub in_dormancy : BustLimits → ℕ → GraphEdge → Bool
in_dormancy l last e =
    ltb (e.ts_ms + l.burst_window) last && leb last (e.ts_ms + l.burst_window + l.dormancy_window)

unfoldable pub bust_out :
    (Option Primitive → ℕ) → BustLimits → String × List GraphEdge → List MotifMatch
bust_out int_of l (wallet, edges) =
    let burst = filter (in_burst l (latest edges)) edges in
    let dormant = filter (in_dormancy l (latest edges)) edges in
    if ltb (length edges) l.burst_min_txns
    then []
    else if ltb l.dormancy_max_txns (length dormant)
    then []
    else if ltb (length burst) l.burst_min_txns
    then []
    else if ltb (total_amount int_of burst) l.burst_min_total
    then []
    else record {
      motif = "bust_out";
      members = ("Wallet", wallet) ∷ [];
      confidence = 88;
      evidence =
          ("dormancy_txns", int (length dormant))
          ∷ ("burst_txns", int (length burst))
          ∷ ("burst_total_minor", int (total_amount int_of burst))
          ∷ ("burst_window_ms", int l.burst_window)
          ∷ [];
    }
      ∷ []

unfoldable pub detect_bust_outs : (Option Primitive → ℕ) → BustLimits → Subgraph → List MotifMatch
detect_bust_outs int_of l sg = flat_map (bust_out int_of l) (
    sort_groups (
      group ◌==◌ (λ e. e.src_id) (λ e. e)
        (filter (λ e. e.src_kind == "Wallet") (edges_of sg "SENT" ++ edges_of sg "CASHED_OUT_TO"))
        []))
