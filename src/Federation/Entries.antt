-- ===== src/Federation/Entries.antt =====
-- The entry of a hash in the merge, by a sum over the list of sightings
-- (packages/federation/src/fraudnet/federation/merge.py).
use Prim.Native.String.{compare}
use Prim.Native.Nat.{Ordering}
use fraudnet.Prelude.{
  ℕ, ◌≡◌, ◌∙◌, refl, sym, ap, subst, String, Bool, true, false, ◌||◌, Option, none, some, List, [],
  ◌∷◌, arith, ◌==◌, eq_iff, if◌then◌else◌, Bool-cases, inl, inr,
}
use fraudnet.Prelude.Dict
use fraudnet.Prelude.Dict.{Dict, lookup-insert}
use fraudnet.Prelude.StringSet
use fraudnet.Prelude.StringSet.{member-add}
use fraudnet.Federation.Merge.{
  RemoteNode, MergedNode, max_optional, place, sorted, record_entry, record_node, record_all,
}
use fraudnet.Federation.Scores.{top_score, saw}

member-place :
    (o a : String) (xs : List String)
    → StringSet.member o (place a xs) ≡ (a == o || StringSet.member o xs)
unfolding StringSet.member
member-place o a [] = refl
member-place o a (b ∷ bs) =
    elim (compare b a)
      as (λ c.
        StringSet.member o (elim c [ Ordering.lt ↦ b ∷ place a bs | _ ↦ a ∷ b ∷ bs ])
        ≡ (a == o || (b == o || StringSet.member o bs))) [
          | Ordering.lt ↦ ground (arith, member-place o a bs)
          | Ordering.eq ↦ refl
          | Ordering.gt ↦ refl
        ]

member-sorted :
    (o : String) (xs : List String) → StringSet.member o (sorted xs) ≡ StringSet.member o xs
unfolding StringSet.member
member-sorted o [] = refl
member-sorted o (a ∷ as') =
    member-place o a (sorted as') ∙ ap (λ b. a == o || b) (member-sorted o as')

-- The entry of a hash sums up a top score and the operators that saw the hash.
abbrev pub Sums : String → Option MergedNode → Option ℕ → (String → Bool) → Type 0
Sums h none top by = (top ≡ none) × ((o : String) → by o ≡ false)
Sums h (some m) top by =
    (m.identifier_hash ≡ h)
    × (m.risk_score ≡ top)
    × ((o : String) → StringSet.member o m.contributors ≡ by o)

Sums-by :
    (h : String) (entry : Option MergedNode) (top : Option ℕ) (by by' : String → Bool)
    → ((o : String) → by o ≡ by' o)
    → Sums h entry top by
    → Sums h entry top by'
Sums-by h none top by by' same (t, b) = (t, λ o. sym (same o) ∙ b o)
Sums-by h (some m) top by by' same (i, t, b) = (i, t, λ o. b o ∙ same o)

max_optional-none : (a : Option ℕ) → max_optional none a ≡ a
max_optional-none none = refl
max_optional-none (some a) = refl

record_entry-Sums :
    (h : String) (node : RemoteNode) (opco : String) (entry : Option MergedNode) (top : Option ℕ)
    (by : String → Bool)
    → node.identifier_hash ≡ h
    → Sums h entry top by
    → Sums h
        (some (record_entry node opco entry))
        (max_optional top node.risk_score)
        (λ o. by o || opco == o)
unfolding record_entry StringSet.member
record_entry-Sums h node opco none top by own (t, b) =
    (own, rw t (sym (max_optional-none node.risk_score)), λ o. ground (arith, b o))
record_entry-Sums h node opco (some m) top by own (i, t, b) = (
  i,
  rw t refl,
  λ o.
      member-sorted o (StringSet.add opco m.contributors)
      ∙ member-add opco o m.contributors
      ∙ ground (arith, b o),
)

record_node-own :
    (h : String) (node : RemoteNode) (opco : String) (nodes : Dict MergedNode)
    → node.identifier_hash == h ≡ true
    → Dict.lookup h (record_node nodes node opco)
      ≡ some (record_entry node opco (Dict.lookup h nodes))
unfolding record_node
record_node-own h node opco nodes own =
    lookup-insert node.identifier_hash h _ nodes
    ∙ ap
        (λ b.
          if b
          then some (record_entry node opco (Dict.lookup node.identifier_hash nodes))
          else Dict.lookup h nodes)
        own
    ∙ ap (λ k. some (record_entry node opco (Dict.lookup k nodes)))
        ((eq_iff node.identifier_hash h).0 own)

record_node-other :
    (h : String) (node : RemoteNode) (opco : String) (nodes : Dict MergedNode)
    → node.identifier_hash == h ≡ false
    → Dict.lookup h (record_node nodes node opco) ≡ Dict.lookup h nodes
unfolding record_node
record_node-other h node opco nodes other = rw (lookup-insert, other) refl

pub record_all-Sums :
    (h : String) (ss : List (RemoteNode × String)) (nodes : Dict MergedNode) (top : Option ℕ)
    (by : String → Bool)
    → Sums h (Dict.lookup h nodes) top by
    → Sums h (Dict.lookup h (record_all nodes ss)) (top_score h top ss) (λ o. by o || saw h o ss)
unfolding record_all
record_all-Sums h [] nodes top by sums =
    Sums-by h (Dict.lookup h nodes) top by _ (λ o. ground arith) sums
record_all-Sums h ((node, opco) ∷ ss) nodes top by sums =
    elim (Bool-cases (node.identifier_hash == h)) [
      | inl own ↦ rw own (
          Sums-by h (Dict.lookup h (record_all (record_node nodes node opco) ss)) _
            (λ o. (by o || opco == o) || saw h o ss) _ (λ o. ground arith)
            (record_all-Sums h ss (record_node nodes node opco) (max_optional top node.risk_score)
              (λ o. by o || opco == o)
              (subst (λ x. Sums h x (max_optional top node.risk_score) (λ o. by o || opco == o))
                (sym (record_node-own h node opco nodes own))
                (record_entry-Sums h node opco (Dict.lookup h nodes) top by
                  ((eq_iff node.identifier_hash h).0 own) sums))))
      | inr other ↦ rw other (
          record_all-Sums h ss (record_node nodes node opco) top by
            (subst (λ x. Sums h x top by) (sym (record_node-other h node opco nodes other)) sums))
    ]
