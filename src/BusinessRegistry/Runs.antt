-- ===== src/BusinessRegistry/Runs.antt =====
-- Runs of the operations of `Registry` with its cache
-- (services/business-registry/src/business_registry/registry.py).
use text.Mathlib.TextLemmas.{append_cancel_left}
use fraudnet.Prelude.{
  ◌≡◌, ◌≢◌, ◌∙◌, refl, sym, ap, subst, String, Option, none, some, List, [], ◌∷◌, inl, inr, some_eq,
}
use fraudnet.Prelude.Dict
use fraudnet.Prelude.Dict.{Dict, lookup-insert, lookup-insert_ne}
use fraudnet.BusinessRegistry.Tables.{Business, Lookup, no_tables, matched_lookup}
use fraudnet.BusinessRegistry.Cache.{
  Json, msisdn_key, shortcode_key, ns_msisdn, ns_shortcode, neg_value, decode,
}
use fraudnet.BusinessRegistry.Cached.{
  Registry, cached, query_msisdn, query_shortcode, aside, verify_business, add_msisdn,
  add_shortcode, lookup_msisdn, lookup_shortcode, Operation, create, verify, link_msisdn,
  link_shortcode, find_msisdn, find_shortcode, expire, apply, run,
}
use fraudnet.BusinessRegistry.Linked.{no_tables-IsLinked}
use fraudnet.BusinessRegistry.Aside.{
  IsCoherent, create-IsCoherent, verify-IsCoherent, number-IsCoherent, code-IsCoherent,
}
use fraudnet.BusinessRegistry.Coherent.{Current, keys-ne, Current-invalidate, cached-set}

module _ (json : Json) (upper : String → String)
    (idem : (s : String) → upper (upper s) ≡ upper s) where
  module _
      (trip : (b : Business) → json.loads (json.dumps (matched_lookup b)) ≡ some (matched_lookup b))
      (unmarked : (l : Lookup) → json.dumps l ≢ neg_value) where
    msisdn-IsCoherent :
        (msisdn : String) (r : Registry) (o : Option Lookup)
        → IsCoherent json upper idem r
        → IsCoherent json upper idem
            (aside json (msisdn_key msisdn) (query_msisdn msisdn r.tables) r o).1
    unfolding aside
    msisdn-IsCoherent msisdn r (some l) h = h
    msisdn-IsCoherent msisdn r none h = record {
      known = h.known;
      numbers = λ m.
          cached-set json trip unmarked (msisdn_key msisdn) (msisdn_key m) _ r.cache _
            (λ e. ap (λ n. query_msisdn n r.tables) (append_cancel_left ns_msisdn msisdn m e))
            (h.numbers m);
      codes = λ s.
          cached-set json trip unmarked (msisdn_key msisdn) (shortcode_key upper s) _ r.cache _
            (λ e. absurd (keys-ne msisdn (upper s) e)) (h.codes s);
    }

    shortcode-IsCoherent :
        (code : String) (r : Registry) (o : Option Lookup)
        → IsCoherent json upper idem r
        → IsCoherent json upper idem
            (aside json
              (shortcode_key upper (upper code))
              (query_shortcode (upper code) r.tables)
              r
              o).1
    unfolding aside
    shortcode-IsCoherent code r (some l) h = h
    shortcode-IsCoherent code r none h = record {
      known = h.known;
      numbers = λ m.
          cached-set json trip unmarked (shortcode_key upper (upper code)) (msisdn_key m) _ r.cache
            _ (λ e. absurd (keys-ne m (upper (upper code)) (sym e))) (h.numbers m);
      codes = λ s.
          cached-set json trip unmarked (shortcode_key upper (upper code)) (shortcode_key upper s) _
            r.cache _
            (λ e.
              ap (λ u. query_shortcode u r.tables)
                (sym (idem code)
                  ∙ append_cancel_left ns_shortcode (upper (upper code)) (upper s) e))
            (h.codes s);
    }

    apply-IsCoherent :
        (o : Operation) (r : Registry)
        → IsCoherent json upper idem r
        → IsCoherent json upper idem (apply json upper o r)
    unfolding apply verify_business add_msisdn add_shortcode lookup_msisdn lookup_shortcode
    apply-IsCoherent (create bid name registration tenant) r h =
        create-IsCoherent json upper idem bid name registration tenant r h
    apply-IsCoherent (verify now bid) r h = verify-IsCoherent json upper idem now bid r _ h
    apply-IsCoherent (link_msisdn bid msisdn) r h =
        number-IsCoherent json upper idem bid r h msisdn _ refl
    apply-IsCoherent (link_shortcode bid code) r h =
        code-IsCoherent json upper idem bid r h code _ refl
    apply-IsCoherent (find_msisdn msisdn) r h = msisdn-IsCoherent msisdn r _ h
    apply-IsCoherent (find_shortcode code) r h = shortcode-IsCoherent code r _ h
    apply-IsCoherent (expire key) r h = record {
      known = h.known;
      numbers = λ m. Current-invalidate json key (msisdn_key m) r.cache _ (h.numbers m);
      codes = λ s. Current-invalidate json key (shortcode_key upper s) r.cache _ (h.codes s);
    }

    run-IsCoherent :
        (os : List Operation) (r : Registry)
        → IsCoherent json upper idem r
        → IsCoherent json upper idem (run json upper os r)
    unfolding run
    run-IsCoherent [] r h = h
    run-IsCoherent (o ∷ os) r h = run-IsCoherent os (apply json upper o r) (apply-IsCoherent o r h)

-- A registry with no rows and an empty cache.
abbrev pub new_registry : Registry
new_registry = record { tables = no_tables; cache = some [] }

new_registry-IsCoherent :
    (json : Json) (upper : String → String) (idem : (s : String) → upper (upper s) ≡ upper s)
    → IsCoherent json upper idem new_registry
unfolding decode Dict.lookup
new_registry-IsCoherent json upper idem = record {
  known = no_tables-IsLinked;
  numbers = λ m. inl refl;
  codes = λ s. inl refl;
}

aside-Current :
    (json : Json) (key : String) (queried : Lookup) (r : Registry) (o : Option Lookup)
    → Current o queried
    → (aside json key queried r o).0 ≡ queried
unfolding aside
aside-Current json key queried r none h = refl
aside-Current json key queried r (some l) (inl e) = cc
aside-Current json key queried r (some l) (inr e) = some_eq e

-- After every sequence of operations on a new registry with a cache, expiries of keys among
-- them, the lookup of every number and of every short code gives what the query of the tables
-- would give now, whether it is answered by the cache or not: no verification and no new link
-- leaves a stale entry. It takes that JSON gives back what it was given and writes no text that
-- is the negative mark, and that `upper` changes nothing the second time.
pub run-lookup_current :
    (json : Json) (upper : String → String) (idem : (s : String) → upper (upper s) ≡ upper s)
    (trip : (b : Business) → json.loads (json.dumps (matched_lookup b)) ≡ some (matched_lookup b))
    (unmarked : (l : Lookup) → json.dumps l ≢ neg_value) (os : List Operation)
    (msisdn shortcode : String)
    → ((lookup_msisdn json msisdn (run json upper os new_registry)).0
        ≡ query_msisdn msisdn (run json upper os new_registry).tables)
      × ((lookup_shortcode json upper shortcode (run json upper os new_registry)).0
          ≡ query_shortcode (upper shortcode) (run json upper os new_registry).tables)
unfolding lookup_msisdn lookup_shortcode
run-lookup_current json upper idem trip unmarked os msisdn shortcode =
    let r = run json upper os new_registry in
    let h : IsCoherent json upper idem r =
      run-IsCoherent json upper idem trip unmarked os new_registry
        (new_registry-IsCoherent json upper idem) in
    (
      aside-Current json (msisdn_key msisdn) (query_msisdn msisdn r.tables) r _ (h.numbers msisdn),
      aside-Current json (shortcode_key upper (upper shortcode))
          (query_shortcode (upper shortcode) r.tables) r _
          (subst
            (λ u.
              Current (cached json (shortcode_key upper (upper shortcode)) r.cache)
                (query_shortcode u r.tables))
            (idem shortcode) (h.codes (upper shortcode))),
    )
