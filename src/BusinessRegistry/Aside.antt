-- ===== src/BusinessRegistry/Aside.antt =====
-- What each operation of `Registry` does to the tables and the cache beside them
-- (services/business-registry/src/business_registry/registry.py).
use Prim.Native.String.{◌++◌}
use fraudnet.Prelude.{
  ◌≡◌, ◌≢◌, ◌∙◌, refl, sym, ap, subst, String, Bool, true, false, Option, none, some, ◌==◌, eq_iff,
  arith, Bool-cases, inl, inr, map,
}
use fraudnet.Prelude.Dict
use fraudnet.Prelude.Dict.{Dict, lookup-insert, lookup-insert_ne}
use fraudnet.Prelude.Members.{any}
use fraudnet.BusinessRegistry.Tables.{Business, Tables, Result, ok, raised}
use fraudnet.BusinessRegistry.Cache.{Json, msisdn_key, shortcode_key, ns_shortcode, invalidate}
use fraudnet.BusinessRegistry.Cached.{
  Registry, on_cache, cached, links_to, purge, row, row_to_lookup, query_msisdn, query_shortcode,
  link, link_row, linked_msisdn, linked_shortcode, verify_found, create_business,
}
use fraudnet.BusinessRegistry.Linked.{IsLinked, AllKnown-insert, AllKnown-link}
use fraudnet.BusinessRegistry.Coherent.{
  Current, Current-invalidate, cached-invalidate_own, cached-purge, purged, links_to-lookup,
}

-- A change of one business changes no row of another.
row-other :
    (t : Tables) (bid : String) (b : Business) (o : Option String)
    → o ≢ some bid
    → row (record t { businesses = Dict.insert bid b t.businesses }) o ≡ row t o
unfolding row
row-other t bid b none h = refl
row-other t bid b (some other) h =
    lookup-insert_ne bid other b t.businesses (λ e. h (ap some (sym e)))

link_row-eq_ok :
    (bid key : String) (d : Dict String) (o : Option String) {d' : Dict String}
    → link_row bid key d o ≡ ok d'
    → Dict.insert key bid d ≡ d'
unfolding link_row
link_row-eq_ok bid key d none h = cc
link_row-eq_ok bid key d (some other) h = ground arith

link-eq_ok :
    (known : Bool) (bid key : String) (d : Dict String) {d' : Dict String}
    → link known bid key d ≡ ok d'
    → (known ≡ true) × (Dict.insert key bid d ≡ d')
unfolding link
link-eq_ok false bid key d h = absurd (cc h)
link-eq_ok true bid key d h = (refl, link_row-eq_ok bid key d (Dict.lookup key d) h)

module _ (json : Json) (upper : String → String)
    (idem : (s : String) → upper (upper s) ≡ upper s) where
  -- The cache holds, for each number and each short code, nothing or what the tables say.
  pub record IsCoherent (r : Registry) : Type 0 where
    pub known : IsLinked r.tables
    pub numbers :
        (m : String) → Current (cached json (msisdn_key m) r.cache) (query_msisdn m r.tables)
    pub codes :
        (s : String)
        → Current (cached json (shortcode_key upper s) r.cache) (query_shortcode (upper s) r.tables)

  pub create-IsCoherent :
      (bid name : String) (registration : Option String) (tenant : String) (r : Registry)
      → IsCoherent r
      → IsCoherent (create_business bid name registration tenant r).1
  unfolding create_business
  create-IsCoherent bid name registration tenant r h =
      elim (Bool-cases (Dict.contains bid r.tables.businesses)) [
        | inl old ↦ rw (old, create_business) h
        | inr new ↦
            rw (new, create_business)
              (record {
                known = record {
                  numbers = AllKnown-insert bid _ _ _ h.known.numbers;
                  codes = AllKnown-insert bid _ _ _ h.known.codes;
                };
                numbers = λ m.
                    subst (λ x. Current (cached json (msisdn_key m) r.cache) (row_to_lookup x))
                      (sym (
                        row-other r.tables bid _ (Dict.lookup m r.tables.msisdns)
                          (λ e. cc (sym new ∙ h.known.numbers m bid e))))
                      (h.numbers m);
                codes = λ s.
                    subst
                      (λ x. Current (cached json (shortcode_key upper s) r.cache) (row_to_lookup x))
                      (sym (
                        row-other r.tables bid _ (Dict.lookup (upper s) r.tables.shortcodes)
                          (λ e. cc (sym new ∙ h.known.codes (upper s) bid e))))
                      (h.codes s);
              })
      ]

  -- After a verification: what was purged is gone, and what was not is of another business.
  Current-purge :
      (bid : String) (b : Business) (r : Registry) (j : String) (o : Option String)
      → (o ≡ some bid → purged json upper bid r.tables j ≡ true)
      → Current (cached json j r.cache) (row_to_lookup (row r.tables o))
      → Current (cached json j (on_cache (purge upper bid r.tables) r.cache)) (
          row_to_lookup
            (row (record r.tables { businesses = Dict.insert bid b r.tables.businesses }) o))
  Current-purge bid b r j o own h = elim (Bool-cases (purged json upper bid r.tables j)) [
    | inl gone ↦ inl (cached-purge json upper bid r.tables j r.cache ∙ rw gone refl)
    | inr kept ↦
        rw (cached-purge json upper bid r.tables j r.cache, kept)
          (subst (λ x. Current (cached json j r.cache) (row_to_lookup x))
            (sym (row-other r.tables bid b o (λ e. cc (sym kept ∙ own e)))) h)
  ]

  pub verify-IsCoherent :
      (now bid : String) (r : Registry) (o : Option Business)
      → IsCoherent r
      → IsCoherent (verify_found upper now bid r o).1
  unfolding verify_found
  verify-IsCoherent now bid r none h = h
  verify-IsCoherent now bid r (some b) h = record {
    known = record {
      numbers = AllKnown-insert bid _ _ _ h.known.numbers;
      codes = AllKnown-insert bid _ _ _ h.known.codes;
    };
    numbers = λ m.
        Current-purge bid _ r (msisdn_key m) (Dict.lookup m r.tables.msisdns)
          (λ e. ground (arith, links_to-lookup msisdn_key bid m r.tables.msisdns e)) (h.numbers m);
    codes = λ s.
        Current-purge bid _ r (shortcode_key upper s) (Dict.lookup (upper s) r.tables.shortcodes)
          (λ e. ground (
            arith,
            subst
                (λ u.
                  any (λ i. i == ns_shortcode ++ u)
                    (map (shortcode_key upper) (links_to bid r.tables.shortcodes))
                  ≡ true)
                (idem s)
                (links_to-lookup (shortcode_key upper) bid (upper s) r.tables.shortcodes e),
          ))
          (h.codes s);
  }

  module _ (bid : String) (r : Registry) (h : IsCoherent r) where
    pub number-IsCoherent :
        (msisdn : String) (d : Result (Dict String))
        → link (Dict.contains bid r.tables.businesses) bid msisdn r.tables.msisdns ≡ d
        → IsCoherent (linked_msisdn msisdn r d).1
    unfolding linked_msisdn row
    number-IsCoherent msisdn (raised f) e = h
    number-IsCoherent msisdn (ok d) e =
        let done = link-eq_ok (Dict.contains bid r.tables.businesses) bid msisdn _ e in
        subst
          (λ x. IsCoherent (record {
            tables = record r.tables { msisdns = x };
            cache = on_cache (invalidate (msisdn_key msisdn)) r.cache;
          }))
          done.1
          (record {
            known = record {
              numbers = AllKnown-link msisdn bid _ _ done.0 h.known.numbers;
              codes = h.known.codes;
            };
            numbers = λ m. elim (Bool-cases (msisdn == m)) [
              | inl own ↦ inl (
                  cached-invalidate_own json (msisdn_key msisdn) (msisdn_key m) r.cache
                    (ap msisdn_key ((eq_iff msisdn m).0 own)))
              | inr other ↦
                  Current-invalidate json (msisdn_key msisdn) (msisdn_key m) r.cache _
                    (rw (lookup-insert, other) (h.numbers m))
            ];
            codes = λ s.
                Current-invalidate json (msisdn_key msisdn) (shortcode_key upper s) r.cache _
                  (h.codes s);
          })

    pub code-IsCoherent :
        (code : String) (d : Result (Dict String))
        → link (Dict.contains bid r.tables.businesses) bid (upper code) r.tables.shortcodes ≡ d
        → IsCoherent (linked_shortcode upper code r d).1
    unfolding linked_shortcode row
    code-IsCoherent code (raised f) e = h
    code-IsCoherent code (ok d) e =
        let done = link-eq_ok (Dict.contains bid r.tables.businesses) bid (upper code) _ e in
        subst
          (λ x. IsCoherent (record {
            tables = record r.tables { shortcodes = x };
            cache = on_cache (invalidate (shortcode_key upper code)) r.cache;
          }))
          done.1
          (record {
            known = record {
              numbers = h.known.numbers;
              codes = AllKnown-link (upper code) bid _ _ done.0 h.known.codes;
            };
            numbers = λ m.
                Current-invalidate json (shortcode_key upper code) (msisdn_key m) r.cache _
                  (h.numbers m);
            codes = λ s. elim (Bool-cases (upper code == upper s)) [
              | inl own ↦ inl (
                  cached-invalidate_own json (shortcode_key upper code) (shortcode_key upper s)
                    r.cache (ap (λ u. ns_shortcode ++ u) ((eq_iff (upper code) (upper s)).0 own)))
              | inr other ↦
                  Current-invalidate json (shortcode_key upper code) (shortcode_key upper s) r.cache
                    _ (rw (lookup-insert, other) (h.codes s))
            ];
          })
