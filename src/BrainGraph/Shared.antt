-- ===== src/BrainGraph/Shared.antt =====
-- The numbers of a shared device, for `detect_sim_carousels` of
-- services/brain-graph/src/brain_graph/motifs.py.
use mathlib.Core.List.{Memᴰ}
use mathlib.Core.List.Memᴰ
use fraudnet.Prelude.{
  ℕ, ◌≤◌, ◌≡◌, ◌∙◌, refl, sym, ap, subst, String, Bool, true, false, ◌&&◌, ◌||◌, Option, none, some,
  List, [], ◌∷◌, ◌==◌, eq_iff, arith, if◌then◌else◌, Bool-cases, inl, inr, length, map, ltb,
}
use fraudnet.Prelude.Dict
use fraudnet.Prelude.Dict.{Dict, lookup-insert}
use fraudnet.Prelude.StringSet
use fraudnet.Prelude.StringSet.{member-add}
use fraudnet.Prelude.Members.{Mem-flat_map, if-Mem}
use fraudnet.BrainGraph.Subgraph.{GraphEdge, Subgraph, MotifMatch, edges_of, joins}
use fraudnet.BrainGraph.Devices.{add_user, users_by_device, carousel, detect_sim_carousels, sorted}

-- Did a number use a device, by the edges of a list?
abbrev pub used : List GraphEdge → String → String → Bool
used [] n d = false
used (e ∷ es) n d = (joins "Number" "Device" e && (e.dst_id == d && e.src_id == n)) || used es n d

-- No text stands twice in a list.
abbrev pub IsDistinct : List String → Type 0
IsDistinct [] = Unit
IsDistinct (x ∷ xs) = (StringSet.member x xs ≡ false) × IsDistinct xs

add-IsDistinct : (x : String) (xs : List String) → IsDistinct xs → IsDistinct (StringSet.add x xs)
unfolding StringSet.add
add-IsDistinct x xs h = elim (Bool-cases (StringSet.member x xs)) [
  | inl old ↦ rw old h
  | inr new ↦ rw new (new, h)
]

abbrev users_of : String → Dict (List String) → List String
users_of k d = Dict.get_or k [] d

abbrev or_empty : Option (List String) → List String
or_empty o = elim o [ none ↦ [] | some w ↦ w ]

users_of-insert :
    (j k : String) (v : List String) (d : Dict (List String))
    → users_of k (Dict.insert j v d) ≡ (if j == k then v else users_of k d)
users_of-insert j k v d =
    ap or_empty (lookup-insert j k v d)
    ∙ elim (j == k)
        as (λ b.
          or_empty (if b then some v else Dict.lookup k d) ≡ (if b then v else users_of k d)) [
            | true ↦ refl
            | false ↦ refl
          ]

users_of-add :
    (e : GraphEdge) (d : Dict (List String)) (n k : String)
    → StringSet.member n (users_of k (add_user e d))
      ≡ ((e.dst_id == k && e.src_id == n) || StringSet.member n (users_of k d))
users_of-add e d n k = elim (Bool-cases (e.dst_id == k)) [
  | inl own ↦
      rw (users_of-insert, own, member-add)
        (ap (λ j. e.src_id == n || StringSet.member n (users_of j d)) ((eq_iff e.dst_id k).0 own))
  | inr other ↦ rw (users_of-insert, other) refl
]

users_by_device-users :
    (es : List GraphEdge) (d : Dict (List String)) (n k : String)
    → StringSet.member n (users_of k (users_by_device es d))
      ≡ (StringSet.member n (users_of k d) || used es n k)
unfolding users_by_device
users_by_device-users [] d n k = ground arith
users_by_device-users (e ∷ es) d n k = elim (Bool-cases (joins "Number" "Device" e)) [
  | inl on ↦
      rw on (users_by_device-users es (add_user e d) n k ∙ rw (users_of-add e d n k) (ground arith))
  | inr off ↦ rw off (users_by_device-users es d n k)
]

users_by_device-used :
    (es : List GraphEdge) (n k : String)
    → StringSet.member n (users_of k (users_by_device es [])) ≡ used es n k
unfolding StringSet.member Dict.lookup
users_by_device-used es n k = users_by_device-users es [] n k

users_by_device-IsDistinct :
    (es : List GraphEdge) (d : Dict (List String))
    → ((k : String) → IsDistinct (users_of k d))
    → (k : String) → IsDistinct (users_of k (users_by_device es d))
unfolding users_by_device
users_by_device-IsDistinct [] d h k = h k
users_by_device-IsDistinct (e ∷ es) d h k = elim (Bool-cases (joins "Number" "Device" e)) [
  | inl on ↦ rw on (
      users_by_device-IsDistinct es (add_user e d)
        (λ j. elim (Bool-cases (e.dst_id == j)) [
          | inl own ↦
              rw (users_of-insert, own) (add-IsDistinct e.src_id (users_of e.dst_id d) (h e.dst_id))
          | inr other ↦ rw (users_of-insert, other) (h j)
        ])
        k)
  | inr off ↦ rw off (users_by_device-IsDistinct es d h k)
]

-- No key stands twice in a dictionary.
abbrev HasKeysOnce : Dict (List String) → Type 0
HasKeysOnce [] = Unit
HasKeysOnce ((k, v) ∷ d) = (Dict.lookup k d ≡ none) × HasKeysOnce d

insert-HasKeysOnce :
    (k : String) (v : List String) (d : Dict (List String))
    → HasKeysOnce d
    → HasKeysOnce (Dict.insert k v d)
unfolding Dict.insert Dict.lookup
insert-HasKeysOnce k v [] h = (refl, tt)
insert-HasKeysOnce k v ((j, w) ∷ d) h = elim (Bool-cases (j == k)) [
  | inl same ↦ rw same (subst (λ i. Dict.lookup i d ≡ none) ((eq_iff j k).0 same) h.0, h.1)
  | inr other ↦ rw other (
    ground (arith, lookup-insert k j v d, eq_iff k j, eq_iff j k, h.0),
    insert-HasKeysOnce k v d h.1,
  )
]

users_by_device-HasKeysOnce :
    (es : List GraphEdge) (d : Dict (List String))
    → HasKeysOnce d
    → HasKeysOnce (users_by_device es d)
unfolding users_by_device
users_by_device-HasKeysOnce [] d h = h
users_by_device-HasKeysOnce (e ∷ es) d h = elim (Bool-cases (joins "Number" "Device" e)) [
  | inl on ↦
      rw on (users_by_device-HasKeysOnce es (add_user e d) (insert-HasKeysOnce e.dst_id _ d h))
  | inr off ↦ rw off (users_by_device-HasKeysOnce es d h)
]

lookup-entry :
    (k : String) (v : List String) (d : Dict (List String))
    → HasKeysOnce d
    → Memᴰ (k, v) d
    → Dict.lookup k d ≡ some v
unfolding Dict.lookup
lookup-entry k v [] h m = absurd (Memᴰ.not-nil m)
lookup-entry k v ((j, w) ∷ d) h (Memᴰ.head e) =
    ground (arith, ap (λ p. p.0) e, ap (λ p. p.1) e, eq_iff j k)
lookup-entry k v ((j, w) ∷ d) h (Memᴰ.tail m) =
    ground (arith, lookup-entry k v d h.1 m, h.0, eq_iff j k)

-- A device with at least so many numbers, each of which used it, and which are all that did.
abbrev pub IsCarousel : Subgraph → ℕ → MotifMatch → Type 0
IsCarousel sg least m =
    (device : String) × (numbers : List String) × (m.members
      ≡ ("Device", device) ∷ map (λ n. ("Number", n)) (sorted numbers))
    × (least ≤ length numbers)
    × IsDistinct numbers
    × ((n : String) → StringSet.member n numbers ≡ used (edges_of sg "USED") n device)

-- Every match names one device and, sorted, a list of numbers without repetition that are exactly
-- those that used the device by the edges of the snapshot, at least as many as the limit asks for.
pub detect_sim_carousels-IsCarousel :
    (sg : Subgraph) (least : ℕ) {m : MotifMatch}
    → Memᴰ m (detect_sim_carousels sg least)
    → IsCarousel sg least m
unfolding detect_sim_carousels carousel Dict.lookup
detect_sim_carousels-IsCarousel sg least {m} i =
    let r = Mem-flat_map (carousel least) (users_by_device (edges_of sg "USED") []) i in
    let device = r.0.0 in
    let numbers = r.0.1 in
    let entry : Dict.lookup device (users_by_device (edges_of sg "USED") []) ≡ some numbers =
      lookup-entry device numbers _ (users_by_device-HasKeysOnce (edges_of sg "USED") [] tt) r.1 in
    let own : users_of device (users_by_device (edges_of sg "USED") []) ≡ numbers =
      ap or_empty entry in
    let passed = if-Mem (ltb (length numbers) least) _ r.2 in
    (
      device,
      numbers,
      ap (λ (x : MotifMatch). x.members) (Memᴰ.eq_of_singleton passed.1),
      ground (arith, passed.0),
      subst IsDistinct own (users_by_device-IsDistinct (edges_of sg "USED") [] (λ k. tt) device),
      λ n. ap (StringSet.member n) (sym own) ∙ users_by_device-used (edges_of sg "USED") n device,
    )
