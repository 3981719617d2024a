-- ===== src/UrlIntel/Guard.antt =====
-- The domains that services/url-intel/src/url_intel/blocklist.py lists, and its allow-list.
use fraudnet.Prelude.{
  ◌≡◌, ◌⊎◌, refl, sym, subst, inl, inr, String, true, false, not, ◌||◌, List, [], ◌∷◌, arith, ◌==◌,
  eq_iff, Bool-cases,
}
use fraudnet.Prelude.Dict
use fraudnet.Prelude.StringSet
use fraudnet.Prelude.StringSet.{member-add, member-discard}
use fraudnet.UrlIntel.Blocklist.{
  Texts, Meta, Store, Request, normalise_domain, is_allow_listed, add, remove, handle, run,
}

-- Every domain listed is a domain by its form, and is not covered by the allow-list.
abbrev pub IsGuarded : Texts → List String → Store → Type 0
IsGuarded t allow s =
    (d : String)
    → StringSet.member d s.domains ≡ true
    → (t.is_domain d ≡ true) × (is_allow_listed t allow d ≡ false)

module _ (t : Texts) (allow : List String) where
  -- An addition changes nothing, or lists an admissible domain.
  pub add-cases :
      (domain : String) (m : Meta) (s : Store)
      → (((add t allow domain m s).0 ≡ false) × ((add t allow domain m s).2 ≡ s))
        ⊎ ((t.is_domain (normalise_domain t domain) ≡ true)
            × (is_allow_listed t allow (normalise_domain t domain) ≡ false)
            × ((add t allow domain m s).2 ≡ record {
              domains = StringSet.add (normalise_domain t domain) s.domains;
              metas = Dict.insert (normalise_domain t domain) m s.metas;
            }))
  unfolding add
  add-cases domain m s =
      elim (Bool-cases
        (normalise_domain t domain == "" || not (t.is_domain (normalise_domain t domain)))) [
          | inl bad ↦ inl (rw (add, bad) refl, rw (add, bad) refl)
          | inr fine ↦ elim (Bool-cases (is_allow_listed t allow (normalise_domain t domain))) [
            | inl allowed ↦ inl (rw (add, fine, allowed) refl, rw (add, fine, allowed) refl)
            | inr other ↦ inr (ground arith, other, rw (add, fine, other) refl)
          ]
        ]

  remove-domains :
      (domain d : String) (s : Store)
      → StringSet.member d (remove t allow domain s).1.domains ≡ true
      → StringSet.member d s.domains ≡ true
  unfolding remove
  remove-domains domain d s h =
      ground (arith, member-discard (normalise_domain t domain) d s.domains)

  handle-IsGuarded :
      (s : Store) (r : Request) → IsGuarded t allow s → IsGuarded t allow (handle t allow s r)
  unfolding handle
  handle-IsGuarded s (Request.adding domain m) h = elim (add-cases domain m s) [
    | inl (_, same) ↦ subst (IsGuarded t allow) (sym same) h
    | inr (form, free, now) ↦ subst (IsGuarded t allow) (sym now) (λ d e.
        elim (Bool-cases (normalise_domain t domain == d)) [
          | inl own ↦
              subst (λ x. (t.is_domain x ≡ true) × (is_allow_listed t allow x ≡ false))
                ((eq_iff (normalise_domain t domain) d).0 own) (form, free)
          | inr other ↦ h d (ground (arith, member-add (normalise_domain t domain) d s.domains))
        ])
  ]
  handle-IsGuarded s (Request.removing domain) h = λ d e. h d (remove-domains domain d s e)

  run-IsGuarded_from :
      (s : Store) (rs : List Request) → IsGuarded t allow s → IsGuarded t allow (run t allow s rs)
  unfolding run
  run-IsGuarded_from s [] h = h
  run-IsGuarded_from s (r ∷ rs) h =
      run-IsGuarded_from (handle t allow s r) rs (handle-IsGuarded s r h)

  -- From an empty blocklist, every sequence of additions and removals lists only domains of the form
  -- that the pattern accepts, and none that the allow-list covers by itself or by a parent domain.
  pub run-IsGuarded :
      (rs : List Request) → IsGuarded t allow (run t allow (record { domains = []; metas = [] }) rs)
  unfolding StringSet.member
  run-IsGuarded rs =
      run-IsGuarded_from (record { domains = []; metas = [] }) rs (λ d e. ground arith)
