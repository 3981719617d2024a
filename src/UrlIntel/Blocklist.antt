-- ===== src/UrlIntel/Blocklist.antt =====
-- services/url-intel/src/url_intel/blocklist.py, over its in-memory client. The metadata of a domain
-- is kept as it was given, since what `str` prints of a number `float` and `int` read again; the
-- in-memory client keeps no expiry. `strip` and `lower` stand for the methods of `str`, `host_of`
-- for the group that `_HOST_RE` matches, and `is_domain` for a match of `_DOMAIN_RE`.
use fraudnet.Prelude.{
  ℕ, String, Bool, true, false, not, ◌||◌, Option, none, some, List, [], ◌∷◌, map, ◌==◌,
  if◌then◌else◌,
}
use fraudnet.Prelude.Dict
use fraudnet.Prelude.Dict.{Dict}
use fraudnet.Prelude.StringSet
use fraudnet.Domain.Labels.{suffix_match, parents}
use fraudnet.Prelude.Text.{before_char}

pub record BlocklistEntry : Type 0 where
  pub domain : String
  pub source : String
  pub category : String
  pub confidence : ℕ
  pub added_at_ms : ℕ

-- What is added with a domain.
pub record Meta : Type 0 where
  pub source : String
  pub category : String
  pub confidence : ℕ
  pub added_at_ms : ℕ

pub record CheckResult : Type 0 where
  pub blocked : Bool
  pub domain : String
  pub matched : Option String
  pub entry : Option BlocklistEntry
  pub allow_listed : Bool

-- The client's set of domains, and its hashes by domain.
pub record Store : Type 0 where
  pub domains : List String
  pub metas : Dict Meta

pub data Reason : Type 0 where
  added invalid_domain allow_listed_domain : Reason

-- What the code calls of `str` and `re`.
pub record Texts : Type 0 where
  pub strip : String → String
  pub lower : String → String
  pub host_of : String → Option String
  pub is_domain : String → Bool

abbrev pub host_or : Option String → String → String
host_or none s = s
host_or (some h) s = h

unfoldable pub normalise_domain : Texts → String → String
normalise_domain t value =
    let s = t.lower (t.strip value) in
    if value == "" then "" else before_char b':' (host_or (t.host_of s) s)

-- `frozenset(s.lower() for s in allow_list)`
unfoldable pub allow_set : Texts → List String → List String
allow_set t allow = StringSet.of_list (map t.lower allow)

-- The values `".".join(parts[i:])` for `i` from 1 to `len(parts) - 2`.
abbrev pub but_last : List String → List String
but_last [] = []
but_last (x ∷ []) = []
but_last (x ∷ y ∷ ys) = x ∷ but_last (y ∷ ys)

unfoldable pub walk : String → List String
walk d = but_last (parents d)

-- The first of some domains that is in the set.
unfoldable pub first_listed : List String → List String → Option String
first_listed domains [] = none
first_listed domains (p ∷ ps) =
    if StringSet.member p domains then some p else first_listed domains ps

-- `_read_entry`
unfoldable pub read_entry : Store → String → BlocklistEntry
read_entry s d = elim (Dict.lookup d s.metas) [
  | none ↦ record {
    domain = d;
    source = "unknown";
    category = "unknown";
    confidence = 0;
    added_at_ms = 0;
  }
  | some m ↦ record {
    domain = d;
    source = m.source;
    category = m.category;
    confidence = m.confidence;
    added_at_ms = m.added_at_ms;
  }
]

abbrev pub not_blocked : String → Bool → CheckResult
not_blocked d allowed = record {
  blocked = false;
  domain = d;
  matched = none;
  entry = none;
  allow_listed = allowed;
}

abbrev pub blocked_by : Store → String → String → CheckResult
blocked_by s d p = record {
  blocked = true;
  domain = d;
  matched = some p;
  entry = some (read_entry s p);
  allow_listed = false;
}

pub data Request : Type 0 where
  adding : String → Meta → Request
  removing : String → Request

module _ (t : Texts) (allow_list : List String) where
  -- `_is_allow_listed`
  abbrev pub is_allow_listed : String → Bool
  is_allow_listed d = suffix_match (allow_set t allow_list) d

  unfoldable pub add : String → Meta → Store → Bool × Reason × Store
  add domain m s =
      let d = normalise_domain t domain in
      if d == "" || not (t.is_domain d)
      then (false, invalid_domain, s)
      else if is_allow_listed d
      then (false, allow_listed_domain, s)
      else (
        true,
        added,
        record { domains = StringSet.add d s.domains; metas = Dict.insert d m s.metas },
      )

  unfoldable pub remove : String → Store → Bool × Store
  remove domain s =
      let d = normalise_domain t domain in
      if d == "" then (false, s) else (
        StringSet.member d s.domains,
        record { domains = StringSet.discard d s.domains; metas = Dict.erase d s.metas },
      )

  unfoldable pub check : Store → String → CheckResult
  check s value =
      let d = normalise_domain t value in
      if d == ""
      then not_blocked "" false
      else if is_allow_listed d
      then not_blocked d true
      else if StringSet.member d s.domains
      then blocked_by s d d
      else (elim (first_listed s.domains (walk d)) [
        | none ↦ not_blocked d false
        | some p ↦ blocked_by s d p
      ])

  unfoldable pub handle : Store → Request → Store
  handle s (adding domain m) = (add domain m s).2
  handle s (removing domain) = (remove domain s).1

  unfoldable pub run : Store → List Request → Store
  run s [] = s
  run s (r ∷ rs) = run (handle s r) rs
