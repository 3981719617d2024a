-- ===== src/Domain/Labels.antt =====
-- `split(".")`, `".".join(labels[i:])` and `endswith`, and the two matches against each other.
use Prim.Native.Char.{Char, code}
use Prim.Native.Nat.{compare, Ordering}
use Prim.Native.String.{◌++◌}
use Prim.Native.String.append
use text.Mathlib.TextEquality.{Char-path}
use text.Mathlib.TextLemmas.{head-eq_of_cons-eq, nil≢cons}
use fraudnet.Prelude.{
  String, Bool, true, false, ◌||◌, List, [], ◌∷◌, ◌≡◌, refl, ap, ◌∙◌, arith, ◌==◌, eq_iff,
  if◌then◌else◌, Bool-cases, inl, inr, sym,
}
use fraudnet.Prelude.StringSet.{member}

is_dot : Char → Bool
is_dot c = elim (compare (code c) b'.') [ Ordering.eq ↦ true | _ ↦ false ]

-- the current label grows by one character
grow : Char → List String → List String
grow c [] = String.◌∷◌ c String.[] ∷ []
grow c (l ∷ ls) = String.◌∷◌ c l ∷ ls

-- `s.split(".")`
unfoldable pub split_dot : String → List String
unfolding is_dot grow
split_dot String.[] = "" ∷ []
split_dot (String.◌∷◌ c s) = let rest = split_dot s in if is_dot c then "" ∷ rest else grow c rest

-- `".".join(labels)`
join_dot : List String → String
join_dot [] = ""
join_dot (l ∷ []) = l
join_dot (l ∷ m ∷ ls) = l ++ String.◌∷◌ "." (join_dot (m ∷ ls))

-- `[".".join(labels[i:]) for i in range(len(labels))]`
joined_tails : List String → List String
joined_tails [] = []
joined_tails (l ∷ ls) = join_dot (l ∷ ls) ∷ joined_tails ls

-- `[".".join(labels[i:]) for i in range(1, len(labels))]`
parents_of : List String → List String
parents_of [] = []
parents_of (l ∷ ls) = joined_tails ls

unfoldable pub parents : String → List String
unfolding split_dot join_dot joined_tails parents_of
parents d = parents_of (split_dot d)

split-cons : (s : String) → (l : String) × (ls : List String) × (split_dot s ≡ l ∷ ls)
unfolding split_dot
split-cons String.[] = ("", [], refl)
split-cons (String.◌∷◌ c s) =
    let (l, ls, e) = split-cons s in
    elim (Bool-cases (is_dot c)) [
      | inl dot ↦ ("", split_dot s, rw dot)
      | inr other ↦ (String.◌∷◌ c l, ls, rw (other, e) refl)
    ]

join-grow :
    (c : Char) (l : String) (ls : List String)
    → join_dot (grow c (l ∷ ls)) ≡ String.◌∷◌ c (join_dot (l ∷ ls))
unfolding join_dot grow
join-grow c l [] = refl
join-grow c l (m ∷ ls) = rw append.cons

-- a character for which the test passes is the dot
is_dot-eq : (c : Char) → is_dot c ≡ true → c ≡ "."
unfolding is_dot
is_dot-eq c h = Char-path c "." (ground arith)

dotted :
    (c : Char) (l : String) (ls : List String)
    → c ≡ "."
    → join_dot ("" ∷ l ∷ ls) ≡ String.◌∷◌ c (join_dot (l ∷ ls))
unfolding join_dot
dotted c l ls e = rw (append.nil, e) refl

-- Joining the labels of a text gives the text back.
joined : (s : String) → join_dot (split_dot s) ≡ s
unfolding split_dot
joined String.[] = unfold join_dot in refl
joined (String.◌∷◌ c s) =
    let (l, ls, e) = split-cons s in
    elim (Bool-cases (is_dot c)) [
      | inl dot ↦
          rw (dot, e) (dotted c l ls (is_dot-eq c dot) ∙ ap (String.◌∷◌ c) (rw (← e) (joined s)))
      | inr other ↦ rw (other, e, join-grow) (ap (String.◌∷◌ c) (rw (← e) (joined s)))
    ]

-- `s.endswith(t)`
unfoldable pub ends_with : String → String → Bool
ends_with String.[] t = "" == t
ends_with (String.◌∷◌ c s) t = String.◌∷◌ c s == t || ends_with s t

-- A text's parents: what follows each of its dots.
parents-cons :
    (c : Char) (s : String)
    → parents (String.◌∷◌ c s) ≡ (if is_dot c then s ∷ parents s else parents s)
unfolding parents
parents-cons c s =
    let (l, ls, e) = split-cons s in
    elim (Bool-cases (is_dot c)) [
      | inl dot ↦ rw (dot, e) (ap (λ t. t ∷ joined_tails ls) (rw (← e) (joined s)))
      | inr other ↦ rw (other, e) refl
    ]

-- `any(p in set for p in ps)`
any_member : List String → List String → Bool
any_member set [] = false
any_member set (p ∷ ps) = member p set || any_member set ps

-- `any(d.endswith("." + a) for a in set)`
any_suffix : String → List String → Bool
any_suffix d [] = false
any_suffix d (a ∷ set) = ends_with d (String.◌∷◌ "." a) || any_suffix d set

-- `d in allow or any(".".join(labels[i:]) in allow for i in range(1, len(labels)))`
unfoldable pub label_match : List String → String → Bool
unfolding any_member
label_match set d = member d set || any_member set (parents d)

-- `d in allow or any(d.endswith("." + a) for a in allow)`
unfoldable pub suffix_match : List String → String → Bool
unfolding any_suffix
suffix_match set d = member d set || any_suffix d set

eq-cons_dot : (s a : String) → (String.◌∷◌ "." s == String.◌∷◌ "." a) ≡ (s == a)
eq-cons_dot s a = ground (arith, eq_iff (String.◌∷◌ "." s) (String.◌∷◌ "." a), eq_iff s a)

dot-ne : (c : Char) (s a : String) → is_dot c ≡ false → String.◌∷◌ c s ≡ String.◌∷◌ "." a → ⊥
unfolding is_dot
dot-ne c s a h e = ground (arith, ap code (head-eq_of_cons-eq e))

eq-cons_other :
    (c : Char) (s a : String) → is_dot c ≡ false → (String.◌∷◌ c s == String.◌∷◌ "." a) ≡ false
eq-cons_other c s a h = elim (Bool-cases (String.◌∷◌ c s == String.◌∷◌ "." a)) [
  | inl same ↦ absurd (dot-ne c s a h ((eq_iff (String.◌∷◌ c s) (String.◌∷◌ "." a)).0 same))
  | inr differ ↦ differ
]

-- A text ends in a dot and `a` exactly if `a` is one of its parents.
ends_with-eq-member : (d a : String) → ends_with d (String.◌∷◌ "." a) ≡ member a (parents d)
unfolding ends_with member parents
ends_with-eq-member String.[] a = elim (Bool-cases ("" == String.◌∷◌ "." a)) [
  | inl same ↦ absurd (nil≢cons ((eq_iff "" (String.◌∷◌ "." a)).0 same))
  | inr differ ↦ differ
]
ends_with-eq-member (String.◌∷◌ c s) a =
    rw (parents-cons, ends_with-eq-member s a)
      (elim (Bool-cases (is_dot c)) [
        | inl dot ↦ rw (dot, is_dot-eq c dot, eq-cons_dot) refl
        | inr other ↦ rw (other, eq-cons_other c s a other) refl
      ])

any_member-nil : (ps : List String) → any_member [] ps ≡ false
unfolding any_member member
any_member-nil [] = refl
any_member-nil (p ∷ ps) = any_member-nil ps

any_member-cons :
    (a : String) (set ps : List String)
    → any_member (a ∷ set) ps ≡ (member a ps || any_member set ps)
unfolding any_member member
any_member-cons a set [] = refl
any_member-cons a set (p ∷ ps) = ground (arith, any_member-cons a set ps, eq_iff a p, eq_iff p a)

any_suffix-eq-any_member :
    (set : List String) (d : String) → any_suffix d set ≡ any_member set (parents d)
unfolding any_suffix
any_suffix-eq-any_member [] d = sym (any_member-nil (parents d))
any_suffix-eq-any_member (a ∷ set) d =
    cc (any_member-cons a set (parents d), any_suffix-eq-any_member set d, ends_with-eq-member d a)

-- The two matches agree on every domain and every set of parent domains.
pub label_match-eq-suffix_match :
    (set : List String) (d : String) → label_match set d ≡ suffix_match set d
unfolding label_match suffix_match
label_match-eq-suffix_match set d =
    ap (λ b. member d set || b) (sym (any_suffix-eq-any_member set d))
