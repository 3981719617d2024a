-- ===== src/Decisions/Suppression.antt =====
-- services/decisions/src/decisions/suppression.py: the two stores. The in-memory one is a set of the
-- keys seen. The other calls `SET key 1 NX EX ttl` of Redis, which is an argument here: from a state, a
-- reading of its clock in milliseconds, a key and a time to live, whether it set the key, and the state
-- afterwards. A claim is given that reading, none where Redis is not reached.
use fraudnet.Prelude.{
  ℕ, ◌+◌, ◌*◌, ◌≤◌, ◌<◌, ◌≡◌, ap, subst, String, Bool, true, false, Option, none, some, List, [],
  ◌∷◌, arith, ltb, ◌==◌, eq_iff, if◌then◌else◌, Bool-cases, inl, inr,
}
use fraudnet.Prelude.StringSet
use fraudnet.Prelude.Text.{concat}
use fraudnet.Prelude.Int.{ℤ, pos, negsuc, is_pos}

-- `InMemorySuppressionStore.claim`: whether the key was claimed, and the keys seen afterwards
unfoldable pub claim : Option ℕ → List String → String → ℤ → Bool × List String
claim clock seen key ttl_s =
    if is_pos ttl_s
    then (if StringSet.member key seen then (false, seen) else (true, StringSet.add key seen))
    else (true, seen)

abbrev pub milliseconds : ℤ → ℕ
milliseconds (pos n) = 1000 * n
milliseconds (negsuc n) = 0

-- f"{self._ns}:{key}"
abbrev pub full_key : String → String → String
full_key namespace key = concat (namespace ∷ ":" ∷ key ∷ [])

module _ {R : Type 0} (set_nx : R → ℕ → String → ℕ → Bool × R) where
  -- The `try` of the claim: it fails open.
  unfoldable pub set_or_open : Option ℕ → R → String → ℕ → Bool × R
  set_or_open none r key ttl = (true, r)
  set_or_open (some now) r key ttl = set_nx r now key ttl

  -- `RedisSuppressionStore.claim`
  unfoldable pub claim_redis : String → Option ℕ → R → String → ℤ → Bool × R
  claim_redis namespace clock r key ttl_s =
      let reply = set_or_open clock r (full_key namespace key) (milliseconds ttl_s) in
      if is_pos ttl_s then reply else (true, r)

-- What Redis documents of `SET NX EX`, by the time at which a key expires: it sets a key that is not
-- held, until the end of the time to live, and changes nothing where the key is held.
pub record IsRedis {R : Type 0} (set_nx : R → ℕ → String → ℕ → Bool × R) (expiry : R → String → ℕ)
    : Type 0 where
  pub held :
      (r : R) (now : ℕ) (key : String) (ttl : ℕ)
      → now < expiry r key
      → set_nx r now key ttl ≡ (false, r)
  pub sets :
      (r : R) (now : ℕ) (key : String) (ttl : ℕ)
      → expiry r key ≤ now
      → ((set_nx r now key ttl).0 ≡ true) × (expiry (set_nx r now key ttl).1 key ≡ now + ttl)
  pub others :
      (r : R) (now : ℕ) (key other : String) (ttl : ℕ)
      → (key == other) ≡ false
      → expiry (set_nx r now key ttl).1 other ≡ expiry r other

module _ {R : Type 0} (set_nx : R → ℕ → String → ℕ → Bool × R) (expiry : R → String → ℕ)
    (redis : IsRedis set_nx expiry) where
  -- No key expires earlier by a set, whatever the clock reads.
  set-expiry :
      (r : R) (now : ℕ) (key other : String) (ttl : ℕ)
      → expiry r other ≤ expiry (set_nx r now key ttl).1 other
  set-expiry r now key other ttl = elim (Bool-cases (key == other)) [
    | inr differs ↦ let e = redis.others r now key other ttl differs in omega (arith, e)
    | inl same ↦
        subst (λ k. expiry r k ≤ expiry (set_nx r now key ttl).1 k) ((eq_iff key other).0 same)
          (elim (Bool-cases (ltb now (expiry r key))) [
            | inl live ↦
                let e =
                  ap (λ p. expiry p.1 key) (redis.held r now key ttl (ground (arith, live))) in
                omega (arith, e)
            | inr over ↦
                let late : expiry r key ≤ now = ground (arith, over) in
                let e = (redis.sets r now key ttl late).1 in omega (arith, late, e)
          ])
  ]

  pub claim-expiry :
      (namespace : String) (clock : Option ℕ) (r : R) (key other : String) (ttl_s : ℤ)
      → expiry r other ≤ expiry (claim_redis set_nx namespace clock r key ttl_s).1 other
  unfolding claim_redis set_or_open
  claim-expiry namespace none r key other ttl_s = elim (Bool-cases (is_pos ttl_s)) [
    | inl p ↦ rw p (omega arith)
    | inr p ↦ rw p (omega arith)
  ]
  claim-expiry namespace (some now) r key other ttl_s = elim (Bool-cases (is_pos ttl_s)) [
    | inl p ↦ rw p (set-expiry r now (full_key namespace key) other (milliseconds ttl_s))
    | inr p ↦ rw p (omega arith)
  ]

  pub claim_sets :
      (namespace : String) (now : ℕ) (r : R) (key : String) (ttl_s : ℤ)
      → is_pos ttl_s ≡ true
      → expiry r (full_key namespace key) ≤ now
      → expiry (claim_redis set_nx namespace (some now) r key ttl_s).1 (full_key namespace key)
        ≡ now + milliseconds ttl_s
  unfolding claim_redis set_or_open
  claim_sets namespace now r key ttl_s p free =
      rw p (redis.sets r now (full_key namespace key) (milliseconds ttl_s) free).1

  pub claim_refused :
      (namespace : String) (now : ℕ) (r : R) (key : String) (ttl_s : ℤ)
      → is_pos ttl_s ≡ true
      → now < expiry r (full_key namespace key)
      → claim_redis set_nx namespace (some now) r key ttl_s ≡ (false, r)
  unfolding claim_redis set_or_open
  claim_refused namespace now r key ttl_s p live =
      rw p (redis.held r now (full_key namespace key) (milliseconds ttl_s) live)
