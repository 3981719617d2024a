-- ===== src/UrlIntel/Verdicts.antt =====
-- The answers of a check after an addition and after a removal
-- (services/url-intel/src/url_intel/blocklist.py).
use fraudnet.Prelude.{
  ◌≡◌, ◌≢◌, refl, ap, ◌∙◌, inl, inr, String, Bool, true, false, ◌||◌, some, List, [], ◌∷◌, arith,
  ◌==◌, eq_iff, eq_refl, Bool-cases, Option-cases, is_some,
}
use fraudnet.Prelude.StringSet
use fraudnet.Prelude.StringSet.{member-add, member-discard}
use fraudnet.UrlIntel.Blocklist.{
  Texts, Meta, Store, normalise_domain, is_allow_listed, add, remove, check, walk, first_listed,
}
use fraudnet.UrlIntel.Guard.{add-cases}

-- A domain that the check of another reaches: itself, or a parent on the walk.
abbrev pub reaches : String → String → Bool
reaches w d = w == d || StringSet.member d (walk w)

first_listed-reaches :
    (domains ps : List String) (d : String)
    → StringSet.member d ps ≡ true
    → StringSet.member d domains ≡ true
    → is_some (first_listed domains ps) ≡ true
unfolding first_listed StringSet.member
first_listed-reaches domains [] d h m = ground arith
first_listed-reaches domains (p ∷ ps) d h m = elim (Bool-cases (StringSet.member p domains)) [
  | inl listed ↦ ground arith
  | inr absent ↦ ground (arith, eq_iff p d, first_listed-reaches domains ps d)
]

first_listed-member :
    (domains ps : List String) (p : String)
    → first_listed domains ps ≡ some p
    → StringSet.member p domains ≡ true
unfolding first_listed
first_listed-member domains [] p e = ground arith
first_listed-member domains (q ∷ ps) p e = elim (Bool-cases (StringSet.member q domains)) [
  | inl listed ↦ ground arith
  | inr absent ↦ ground (arith, first_listed-member domains ps p)
]

module _ (t : Texts) (allow : List String) where
  -- A check of a text that is neither empty nor allowed blocks it if its walk reaches a listed
  -- domain.
  check-blocked :
      (s : Store) (value d : String)
      → StringSet.member d s.domains ≡ true
      → reaches (normalise_domain t value) d ≡ true
      → normalise_domain t value == "" ≡ false
      → is_allow_listed t allow (normalise_domain t value) ≡ false
      → (check t allow s value).blocked ≡ true
  unfolding check
  check-blocked s value d listed reach some_text free =
      elim (Bool-cases (StringSet.member (normalise_domain t value) s.domains)) [
        | inl own ↦ rw (check, some_text, free, own) refl
        | inr other ↦
            elim (Option-cases (first_listed s.domains (walk (normalise_domain t value)))) [
              | inl e ↦ ground (
                arith,
                eq_iff (normalise_domain t value) d,
                first_listed-reaches s.domains (walk (normalise_domain t value)) d,
              )
              | inr (p, e) ↦ rw (check, some_text, free, other, e) refl
            ]
      ]

  -- What a check says it matched is listed.
  check-matched :
      (s : Store) (value p : String)
      → (check t allow s value).matched ≡ some p
      → StringSet.member p s.domains ≡ true
  unfolding check
  check-matched s value p e =
      ground (arith, first_listed-member s.domains (walk (normalise_domain t value)) p)

  -- After a domain was added with success, a check of any text whose domain is that one or has
  -- it among the parents walked, which leave out the top level, is blocked, unless the text's
  -- own domain is empty or allowed.
  pub check-add :
      (domain : String) (m : Meta) (s : Store) (value : String)
      → (add t allow domain m s).0 ≡ true
      → reaches (normalise_domain t value) (normalise_domain t domain) ≡ true
      → normalise_domain t value == "" ≡ false
      → is_allow_listed t allow (normalise_domain t value) ≡ false
      → (check t allow (add t allow domain m s).2 value).blocked ≡ true
  check-add domain m s value added reach some_text free = elim (add-cases t allow domain m s) [
    | inl (refused, _) ↦ ground arith
    | inr (_, _, now) ↦
        check-blocked (add t allow domain m s).2 value (normalise_domain t domain)
          (ap (λ x. StringSet.member (normalise_domain t domain) x.domains) now
            ∙ ground (
              arith,
              member-add (normalise_domain t domain) (normalise_domain t domain) s.domains,
              eq_refl (normalise_domain t domain),
            ))
          reach some_text free
  ]

  -- After a domain that is not empty was removed, no check of any text names it as its match.
  pub check-remove :
      (domain : String) (s : Store) (value : String)
      → normalise_domain t domain == "" ≡ false
      → (check t allow (remove t allow domain s).1 value).matched ≢ some (normalise_domain t domain)
  unfolding remove
  check-remove domain s value some_text e = ground (
    arith,
    check-matched (remove t allow domain s).1 value (normalise_domain t domain) e,
    member-discard (normalise_domain t domain) (normalise_domain t domain) s.domains,
    eq_refl (normalise_domain t domain),
  )
