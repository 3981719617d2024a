-- ===== src/BusinessRegistry/Coherent.antt =====
-- The cache beside the tables, for `Registry` and `RedisCache` of
-- services/business-registry/src/business_registry/registry.py.
use Prim.Native.String.{◌++◌}
use text.Mathlib.TextLemmas.{append_assoc, append_inj}
use fraudnet.Prelude.{
  ◌≡◌, ◌≢◌, ◌∙◌, ◌⊎◌, refl, sym, ap, subst, String, Bool, true, false, ◌||◌, Option, none, some,
  List, [], ◌∷◌, ◌==◌, eq_iff, arith, if◌then◌else◌, Bool-cases, inl, inr, map,
}
use fraudnet.Prelude.Dict
use fraudnet.Prelude.Dict.{Dict, lookup-insert, lookup-erase}
use fraudnet.Prelude.Members.{any}
use fraudnet.BusinessRegistry.Tables.{Business, Lookup, Tables, matched_lookup}
use fraudnet.BusinessRegistry.Cache.{
  Json, decode, encode, get_key, set_key, invalidate, msisdn_key, shortcode_key, ns_msisdn,
  ns_shortcode, neg_value,
}
use fraudnet.BusinessRegistry.Cached.{
  on_cache, cached, invalidate_all, links_to, purge, row_to_lookup,
}

-- A number's key is no short code's: the first eleven characters differ.
pub keys-ne : (m c : String) → ns_msisdn ++ m ≢ ns_shortcode ++ c
keys-ne m c e =
    let parts =
      append_inj {s₁ = "biz:msisdn:"} {s₂ = "biz:shortco"} {t₁ = m} {t₂ = "de:" ++ c}
        (e ∙ append_assoc "biz:shortco" "de:" c) refl in
    absurd (cc (ap (λ s. s == "biz:msisdn:") parts.0))

-- Nothing, or this one.
abbrev pub Current : Option Lookup → Lookup → Type 0
Current o l = (o ≡ none) ⊎ (o ≡ some l)

module _ (json : Json) where
  cached-invalidate :
      (k j : String) (c : Option (Dict String))
      → cached json j (on_cache (invalidate k) c) ≡ (if k == j then none else cached json j c)
  unfolding decode
  cached-invalidate k j none = ground arith
  cached-invalidate k j (some c) = rw lookup-erase (erased (k == j))
    where
      erased :
          (own : Bool)
          → decode json (if own then none else Dict.lookup j c)
            ≡ (if own then none else get_key json j c)
      erased true = refl
      erased false = refl

  -- What a removal leaves of an entry.
  pub Current-invalidate :
      (k j : String) (c : Option (Dict String)) (l : Lookup)
      → Current (cached json j c) l
      → Current (cached json j (on_cache (invalidate k) c)) l
  Current-invalidate k j c l h = elim (Bool-cases (k == j)) [
    | inl own ↦ inl (cached-invalidate k j c ∙ rw own refl)
    | inr other ↦ rw (cached-invalidate k j c, other) h
  ]

  pub cached-invalidate_own :
      (k j : String) (c : Option (Dict String))
      → k ≡ j
      → cached json j (on_cache (invalidate k) c) ≡ none
  cached-invalidate_own k j c e = cached-invalidate k j c ∙ rw ((eq_iff k j).1 e) refl

  get_key-invalidate_all :
      (keys : List String) (j : String) (c : Dict String)
      → get_key json j (invalidate_all keys c)
        ≡ (if any (λ k. k == j) keys then none else get_key json j c)
  unfolding invalidate_all
  get_key-invalidate_all [] j c = refl
  get_key-invalidate_all (k ∷ keys) j c =
      get_key-invalidate_all keys j (invalidate k c)
      ∙ ap (λ o. if any (λ i. i == j) keys then none else o) (cached-invalidate k j (some c))
      ∙ merged (any (λ i. i == j) keys) (k == j)
    where
      merged :
          (a b : Bool)
          → (if a then none else (if b then none else get_key json j c))
            ≡ (if b || a then none else get_key json j c)
      merged true true = refl
      merged true false = refl
      merged false true = refl
      merged false false = refl

  module _ (upper : String → String) (bid : String) (t : Tables) where
    abbrev pub purged : String → Bool
    purged j =
        any (λ k. k == j) (map (shortcode_key upper) (links_to bid t.shortcodes))
        || any (λ k. k == j) (map msisdn_key (links_to bid t.msisdns))

    pub cached-purge :
        (j : String) (c : Option (Dict String))
        → cached json j (on_cache (purge upper bid t) c)
          ≡ (if purged j then none else cached json j c)
    unfolding purge
    cached-purge j none = ground arith
    cached-purge j (some c) =
        get_key-invalidate_all (map (shortcode_key upper) (links_to bid t.shortcodes)) j _
        ∙ ap
            (λ o.
              if any (λ k. k == j) (map (shortcode_key upper) (links_to bid t.shortcodes))
              then none
              else o)
            (get_key-invalidate_all (map msisdn_key (links_to bid t.msisdns)) j c)
        ∙ merged (any (λ k. k == j) (map (shortcode_key upper) (links_to bid t.shortcodes)))
            (any (λ k. k == j) (map msisdn_key (links_to bid t.msisdns)))
      where
        merged :
            (a b : Bool)
            → (if a then none else (if b then none else get_key json j c))
              ≡ (if a || b then none else get_key json j c)
        merged true b = refl
        merged false b = refl

  module _
      (trip : (b : Business) → json.loads (json.dumps (matched_lookup b)) ≡ some (matched_lookup b))
      (unmarked : (l : Lookup) → json.dumps l ≢ neg_value) where
    decode-encode :
        (o : Option Business)
        → decode json (some (encode json (row_to_lookup o))) ≡ some (row_to_lookup o)
    unfolding decode row_to_lookup
    decode-encode none = refl
    decode-encode (some b) = elim (Bool-cases (json.dumps (matched_lookup b) == neg_value)) [
      | inl e ↦ absurd (unmarked (matched_lookup b) ((eq_iff _ neg_value).0 e))
      | inr e ↦ rw e (trip b)
    ]

    pub cached-set :
        (k j : String) (o : Option Business) (c : Option (Dict String)) (l : Lookup)
        → (k ≡ j → row_to_lookup o ≡ l)
        → Current (cached json j c) l
        → Current (cached json j (on_cache (set_key json k (row_to_lookup o)) c)) l
    unfolding set_key
    cached-set k j o none l own h = h
    cached-set k j o (some c) l own h = elim (Bool-cases (k == j)) [
      | inl e ↦ inr (
          ap (decode json) (
            lookup-insert k j (encode json (row_to_lookup o)) c
            ∙ ap (λ b. if b then some (encode json (row_to_lookup o)) else Dict.lookup j c) e)
          ∙ decode-encode o
          ∙ ap some (own ((eq_iff k j).0 e)))
      | inr e ↦
          subst (λ s. Current (decode json s) l)
            (sym (
              lookup-insert k j (encode json (row_to_lookup o)) c
              ∙ ap (λ b. if b then some (encode json (row_to_lookup o)) else Dict.lookup j c) e))
            h
    ]

-- The links of a business are among its keys.
pub links_to-lookup :
    (key : String → String) (bid k : String) (d : Dict String)
    → Dict.lookup k d ≡ some bid
    → any (λ i. i == key k) (map key (links_to bid d)) ≡ true
unfolding Dict.lookup
links_to-lookup key bid k [] h = cc
links_to-lookup key bid k ((j, other) ∷ d) h = elim (Bool-cases (other == bid)) [
  | inl e ↦ rw e (ground (arith, eq_iff j k, eq_iff (key j) (key k), links_to-lookup key bid k d))
  | inr e ↦ rw e (ground (arith, eq_iff j k, eq_iff other bid, links_to-lookup key bid k d))
]
