-- ===== src/BusinessRegistry/Linked.antt =====
-- The links of numbers and short codes to businesses, for
-- services/business-registry/src/business_registry/registry.py.
use fraudnet.Prelude.{
  ◌≡◌, ◌∙◌, refl, sym, ap, subst, String, Bool, true, false, Option, none, some, List, [], ◌∷◌,
  ◌==◌, if◌then◌else◌, Bool-cases, Option-cases, inl, inr, is_some, some_eq,
}
use fraudnet.Prelude.Dict
use fraudnet.Prelude.Dict.{Dict, lookup-insert}
use fraudnet.BusinessRegistry.Tables.{
  Business, Lookup, Tables, Result, ok, no_tables, not_matched, matched_lookup,
}
use fraudnet.BusinessRegistry.InMemory.{
  create_business, verify_business, verify_found, add_msisdn, add_shortcode, get_business,
  lookup_msisdn, lookup_shortcode, linked, business_of, Operation, create, verify, link_msisdn,
  link_shortcode, apply, run,
}

-- Every link is to a business of the table.
abbrev pub AllKnown : Dict Business → Dict String → Type 0
AllKnown bs d = (k bid : String) → Dict.lookup k d ≡ some bid → Dict.contains bid bs ≡ true

contains-insert :
    (bid other : String) (b : Business) (bs : Dict Business)
    → Dict.contains other bs ≡ true
    → Dict.contains other (Dict.insert bid b bs) ≡ true
contains-insert bid other b bs h = rw (lookup-insert bid other b bs) (found (bid == other))
  where
    found : (own : Bool) → is_some (if own then some b else Dict.lookup other bs) ≡ true
    found true = refl
    found false = h

pub AllKnown-insert :
    (bid : String) (b : Business) (bs : Dict Business) (d : Dict String)
    → AllKnown bs d
    → AllKnown (Dict.insert bid b bs) d
AllKnown-insert bid b bs d h k other e = contains-insert bid other b bs (h k other e)

pub AllKnown-link :
    (key bid : String) (bs : Dict Business) (d : Dict String)
    → Dict.contains bid bs ≡ true
    → AllKnown bs d
    → AllKnown bs (Dict.insert key bid d)
AllKnown-link key bid bs d known h k other e = elim (Bool-cases (key == k)) [
  | inl own ↦
      let same : some bid ≡ some other =
        sym (lookup-insert key k bid d ∙ ap (λ b. if b then some bid else Dict.lookup k d) own)
        ∙ e in
      subst (λ i. Dict.contains i bs ≡ true) (some_eq same) known
  | inr past ↦
      h k other (
        sym (lookup-insert key k bid d ∙ ap (λ b. if b then some bid else Dict.lookup k d) past)
        ∙ e)
]

pub record IsLinked (t : Tables) : Type 0 where
  pub numbers : AllKnown t.businesses t.msisdns
  pub codes : AllKnown t.businesses t.shortcodes

pub no_tables-IsLinked : IsLinked no_tables
unfolding Dict.lookup
no_tables-IsLinked = record { numbers = λ k bid e. cc; codes = λ k bid e. cc }

verify_found-IsLinked :
    (now bid : String) (t : Tables) (o : Option Business)
    → IsLinked t
    → IsLinked (verify_found now bid t o).1
unfolding verify_found
verify_found-IsLinked now bid t none h = h
verify_found-IsLinked now bid t (some b) h = record {
  numbers = AllKnown-insert bid _ t.businesses t.msisdns h.numbers;
  codes = AllKnown-insert bid _ t.businesses t.shortcodes h.codes;
}

add_msisdn-IsLinked :
    (bid msisdn : String) (t : Tables) → IsLinked t → IsLinked (add_msisdn bid msisdn t).1
unfolding add_msisdn
add_msisdn-IsLinked bid msisdn t h = elim (Bool-cases (Dict.contains bid t.businesses)) [
  | inl known ↦
      rw (known, add_msisdn)
        (record {
          numbers = AllKnown-link msisdn bid t.businesses t.msisdns known h.numbers;
          codes = h.codes;
        })
  | inr e ↦ rw (e, add_msisdn) h
]

add_shortcode-IsLinked :
    (upper : String → String) (bid code : String) (t : Tables)
    → IsLinked t
    → IsLinked (add_shortcode upper bid code t).1
unfolding add_shortcode
add_shortcode-IsLinked upper bid code t h = elim (Bool-cases (Dict.contains bid t.businesses)) [
  | inl known ↦
      rw (known, add_shortcode)
        (record {
          numbers = h.numbers;
          codes = AllKnown-link (upper code) bid t.businesses t.shortcodes known h.codes;
        })
  | inr e ↦ rw (e, add_shortcode) h
]

module _ (upper : String → String) where
  apply-IsLinked : (o : Operation) (t : Tables) → IsLinked t → IsLinked (apply upper o t)
  unfolding apply create_business verify_business
  apply-IsLinked (create bid name registration tenant) t h = record {
    numbers = AllKnown-insert bid _ t.businesses t.msisdns h.numbers;
    codes = AllKnown-insert bid _ t.businesses t.shortcodes h.codes;
  }
  apply-IsLinked (verify now bid) t h =
      verify_found-IsLinked now bid t (Dict.lookup bid t.businesses) h
  apply-IsLinked (link_msisdn bid msisdn) t h = add_msisdn-IsLinked bid msisdn t h
  apply-IsLinked (link_shortcode bid code) t h = add_shortcode-IsLinked upper bid code t h

  run-IsLinked : (os : List Operation) (t : Tables) → IsLinked t → IsLinked (run upper os t)
  unfolding run
  run-IsLinked [] t h = h
  run-IsLinked (o ∷ os) t h = run-IsLinked os (apply upper o t) (apply-IsLinked o t h)

-- What a lookup says of a link: no match without one, or the business that the table has for it.
abbrev pub Answers : Tables → Option String → Result Lookup → Type 0
Answers t none r = r ≡ ok not_matched
Answers t (some bid) r =
    (b : Business) × (get_business bid t ≡ some b) × (r ≡ ok (matched_lookup b))

linked-Answers :
    (t : Tables) (d : Dict String) (k : String) (o : Option String)
    → AllKnown t.businesses d
    → Dict.lookup k d ≡ o
    → Answers t o (linked t o)
unfolding linked business_of
linked-Answers t d k none h e = refl
linked-Answers t d k (some bid) h e = elim (Option-cases (Dict.lookup bid t.businesses)) [
  | inl missing ↦ absurd (cc (sym (h k bid e) ∙ ap is_some missing))
  | inr (b, found) ↦ (b, found, rw (found, linked, business_of) refl)
]

-- After every sequence of operations on a new registry, the lookup of every number and of every
-- short code returns, without a KeyError: no match where nothing is linked, and otherwise the
-- business that the registry holds under the linked id, verified exactly if its status is
-- "verified".
pub run-Answers :
    (upper : String → String) (os : List Operation) (msisdn shortcode : String)
    → Answers
        (run upper os no_tables)
        (Dict.lookup msisdn (run upper os no_tables).msisdns)
        (lookup_msisdn msisdn (run upper os no_tables))
      × Answers
          (run upper os no_tables)
          (Dict.lookup (upper shortcode) (run upper os no_tables).shortcodes)
          (lookup_shortcode upper shortcode (run upper os no_tables))
run-Answers upper os msisdn shortcode =
    let t = run upper os no_tables in
    let h : IsLinked t = run-IsLinked upper os no_tables no_tables-IsLinked in
    (
      linked-Answers t t.msisdns msisdn (Dict.lookup msisdn t.msisdns) h.numbers refl,
      linked-Answers t t.shortcodes (upper shortcode) (Dict.lookup (upper shortcode) t.shortcodes)
          h.codes refl,
    )
