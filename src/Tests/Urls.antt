-- ===== src/Tests/Urls.antt =====
-- Domains for services/url-intel/src/url_intel/blocklist.py. The texts are already bare and lower
-- case, so that the string functions of the example leave them as they are.
use fraudnet.Prelude.{true, not, ◌≡◌, ◌≢◌, refl, none, some, List, [], ◌∷◌, ◌==◌}
use fraudnet.Prelude.StringSet
use fraudnet.Prelude.Text.{before_char}
use fraudnet.Domain.Labels.{suffix_match, ends_with, parents}
use fraudnet.UrlIntel.Blocklist.{
  Texts, Meta, Store, Request, normalise_domain, add, remove, check, run, walk, allow_set,
}
use fraudnet.UrlIntel.Guard.{IsGuarded, run-IsGuarded}
use fraudnet.UrlIntel.Verdicts.{check-add, check-remove}

abbrev plain : Texts
plain = record {
  strip = λ s. s;
  lower = λ s. s;
  host_of = λ s. none;
  is_domain = λ s. not (s == "localhost");
}

abbrev by_feed : Meta
by_feed = record { source = "feed:x"; category = "phishing"; confidence = 9; added_at_ms = 1 }

abbrev empty : Store
empty = record { domains = []; metas = [] }

abbrev requests : List Request
requests =
    Request.adding "bad.example.com" by_feed
    ∷ Request.adding "pay.mtn.com.gh" by_feed
    ∷ Request.removing "bad.example.com"
    ∷ []

run-IsGuarded_example :
    IsGuarded plain ("mtn.com.gh" ∷ []) (run plain ("mtn.com.gh" ∷ []) empty requests)
run-IsGuarded_example = run-IsGuarded plain ("mtn.com.gh" ∷ []) requests

check-add_example :
    (check plain
      ("mtn.com.gh" ∷ [])
      (add plain ("mtn.com.gh" ∷ []) "example.com" by_feed empty).2
      "login.example.com").blocked
    ≡ true
unfolding add normalise_domain before_char suffix_match StringSet.member allow_set StringSet.of_list
    StringSet.add ends_with walk parents
check-add_example =
    check-add plain ("mtn.com.gh" ∷ []) "example.com" by_feed empty "login.example.com" refl refl
      refl refl

check-remove_example :
    (check plain
      ("mtn.com.gh" ∷ [])
      (remove plain ("mtn.com.gh" ∷ []) "example.com" empty).1
      "example.com").matched
    ≢ some "example.com"
unfolding normalise_domain before_char
check-remove_example = check-remove plain ("mtn.com.gh" ∷ []) "example.com" empty "example.com" refl
