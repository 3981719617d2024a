-- ===== src/CustomerOtp/OneShot.antt =====
-- How often a code is accepted, for `RedisOtpAdapter` of
-- services/api-customer/src/api_customer/otp.py.
use Prim.Native.String.{◌++◌}
use text.Mathlib.TextLemmas.{append_cancel_left}
use fraudnet.Prelude.{
  ℕ, ◌+◌, ◌≤◌, ◌≡◌, ◌∙◌, refl, sym, ap, subst, String, Bool, true, false, ◌&&◌, Option, none, some,
  List, [], ◌∷◌, ◌==◌, eq_iff, arith, if◌then◌else◌, Bool-cases, inl, inr, count,
}
use fraudnet.Prelude.Dict
use fraudnet.Prelude.Dict.{Dict, lookup-insert, lookup-erase}
use fraudnet.CustomerOtp.Adapters.{
  RedisOtp, Session, Event, requested, verified, expired, otp_key, request, check_stored, verify,
  expire, step, run, new_session,
}

-- How often a number and a code stand in a list
abbrev pub times : String → String → List (String × String) → ℕ
times msisdn code xs = count (λ x. x.0 == msisdn && x.1 == code) xs

abbrev is_code : String → Option String → Bool
is_code code none = false
is_code code (some stored) = stored == code

abbrev one_if : Bool → ℕ
one_if true = 1
one_if false = 0

-- Is a code held for a number?
abbrev held : String → String → RedisOtp → ℕ
held msisdn code r = one_if (is_code code (Dict.lookup (otp_key r.namespace msisdn) r.store))

otp_key-eq : (ns a b : String) → (otp_key ns a == otp_key ns b) ≡ (a == b)
otp_key-eq ns a b = elim (Bool-cases (a == b)) [
  | inl e ↦ rw e ((eq_iff (otp_key ns a) (otp_key ns b)).1 (ap (otp_key ns) ((eq_iff a b).0 e)))
  | inr e ↦ elim (Bool-cases (otp_key ns a == otp_key ns b)) [
    | inl k ↦ absurd (
        cc (
          sym e
          ∙ (eq_iff a b).1 (
              append_cancel_left ":" a b (
                append_cancel_left ns (":" ++ a) (":" ++ b)
                  ((eq_iff (otp_key ns a) (otp_key ns b)).0 k)))))
    | inr k ↦ rw (k, e) refl
  ]
]

held-insert :
    (m c m' c' : String) (r : RedisOtp)
    → held m c (request m' c' r).1 ≡ (if m' == m then one_if (c' == c) else held m c r)
unfolding request
held-insert m c m' c' r =
    ap (λ o. one_if (is_code c o))
      (lookup-insert (otp_key r.namespace m') (otp_key r.namespace m) c' r.store
        ∙ ap (λ b. if b then some c' else Dict.lookup (otp_key r.namespace m) r.store)
            (otp_key-eq r.namespace m' m))
    ∙ elim (m' == m)
        as (λ b.
          one_if (is_code c (if b then some c' else Dict.lookup (otp_key r.namespace m) r.store))
          ≡ (if b then one_if (c' == c) else held m c r)) [ true ↦ refl | false ↦ refl ]

held-erase :
    (m c m' : String) (r : RedisOtp) → held m c (expire m' r) ≡ (if m' == m then 0 else held m c r)
held-erase m c m' r =
    ap (λ o. one_if (is_code c o))
      (lookup-erase (otp_key r.namespace m') (otp_key r.namespace m) r.store
        ∙ ap (λ b. if b then none else Dict.lookup (otp_key r.namespace m) r.store)
            (otp_key-eq r.namespace m' m))
    ∙ elim (m' == m)
        as (λ b.
          one_if (is_code c (if b then none else Dict.lookup (otp_key r.namespace m) r.store))
          ≡ (if b then 0 else held m c r)) [ true ↦ refl | false ↦ refl ]

-- Each code accepted, and the one held, were issued.
abbrev IsBacked : Session → Type 0
IsBacked s = (m c : String) → times m c s.accepted + held m c s.adapter ≤ times m c s.issued

held_moved :
    (m' m c' c : String) (r : RedisOtp)
    → (m' == m) ≡ true
    → (c' == c) ≡ true
    → held m' c' r ≡ 1
    → held m c r ≡ 1
held_moved m' m c' c r same equal own =
    subst (λ n. held n c r ≡ 1) ((eq_iff m' m).0 same)
      (subst (λ d. held m' d r ≡ 1) ((eq_iff c' c).0 equal) own)

checked :
    (m' c' : String) (s : Session) (o : Option String)
    → Dict.lookup (otp_key s.adapter.namespace m') s.adapter.store ≡ o
    → IsBacked s
    → (m c : String)
    → times m c (if (check_stored m' c' s.adapter o).0 then (m', c') ∷ s.accepted else s.accepted)
        + held m c (check_stored m' c' s.adapter o).1
      ≤ times m c s.issued
unfolding check_stored
checked m' c' s none e h m c = h m c
checked m' c' s (some stored) e h m c = elim (Bool-cases (stored == c')) [
  | inr wrong ↦ rw wrong (h m c)
  | inl right ↦
      rw (right, held-erase m c m' s.adapter)
        (let own : held m' c' s.adapter ≡ 1 = ap (λ o. one_if (is_code c' o)) e ∙ ap one_if right in
          elim (Bool-cases (m' == m)) [
            | inr other ↦ rw other (h m c)
            | inl same ↦ elim (Bool-cases (c' == c)) [
              | inr other ↦ rw (same, other) (omega (arith, h m c))
              | inl equal ↦
                  rw (same, equal)
                    (omega (arith, h m c, held_moved m' m c' c s.adapter same equal own))
            ]
          ])
]

step-IsBacked : (s : Session) (e : Event) → IsBacked s → IsBacked (step s e)
unfolding step verify
step-IsBacked s (requested m' c') h m c =
    rw (held-insert m c m' c' s.adapter) (elim (Bool-cases (m' == m)) [
      | inr other ↦ rw other (h m c)
      | inl same ↦ elim (Bool-cases (c' == c)) [
        | inr other ↦ rw (same, other) (omega (arith, h m c))
        | inl equal ↦ rw (same, equal) (omega (arith, h m c))
      ]
    ])
step-IsBacked s (verified m' c') h m c = checked m' c' s _ refl h m c
step-IsBacked s (expired m') h m c = rw (held-erase m c m' s.adapter) (elim (Bool-cases (m' == m)) [
  | inr other ↦ rw other (h m c)
  | inl same ↦ rw same (omega (arith, h m c))
])

run-IsBacked : (s : Session) (es : List Event) → IsBacked s → IsBacked (run s es)
unfolding run
run-IsBacked s [] h = h
run-IsBacked s (e ∷ es) h = run-IsBacked (step s e) es (step-IsBacked s e h)

-- Over every sequence of requests, verifications and expiries, one after another on a new store,
-- a code is accepted for a number at most as often as it was issued for it.
pub run-accepted :
    (namespace : String) (es : List Event) (m c : String)
    → times m c (run (new_session namespace) es).accepted
      ≤ times m c (run (new_session namespace) es).issued
unfolding Dict.lookup
run-accepted namespace es m c =
    omega (arith, run-IsBacked (new_session namespace) es (λ m c. omega arith) m c)
