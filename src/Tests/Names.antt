-- ===== src/Tests/Names.antt =====
-- Two spellings of a name, for services/aml-watchlist/src/aml_watchlist/matching.py.
use fraudnet.Prelude.{ℕ, ◌≡◌, List, [], ◌∷◌}
use fraudnet.Watchlist.Similarity.{jaro_winkler}
use fraudnet.Watchlist.Soundex.{soundex}
use fraudnet.Watchlist.Range.{InRange, jaro_winkler-InRange}
use fraudnet.Watchlist.Codes.{Three, soundex-Three}

-- SMITH and SMYTH
abbrev smith : List ℕ
smith = 83 ∷ 77 ∷ 73 ∷ 84 ∷ 72 ∷ []

abbrev smyth : List ℕ
smyth = 83 ∷ 77 ∷ 89 ∷ 84 ∷ 72 ∷ []

jaro_winkler-InRange_example : InRange (jaro_winkler smith smyth)
jaro_winkler-InRange_example = jaro_winkler-InRange smith smyth

soundex-Three_example : Three 83 (soundex (83 ∷ smyth)) × (soundex [] ≡ [])
soundex-Three_example = soundex-Three 83 smyth
