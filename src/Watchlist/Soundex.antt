-- ===== src/Watchlist/Soundex.antt =====
-- `soundex` of services/aml-watchlist/src/aml_watchlist/matching.py, on the letters of a name in
-- upper case. A text is the list of its code points, and the code 0 stands for no code.
use fraudnet.Prelude.{ℕ, ◌≡◌, refl, Bool, false, ◌||◌, List, [], ◌∷◌, ◌++◌, if◌then◌else◌, length}
use fraudnet.Prelude.Members.{take}
use fraudnet.Watchlist.Similarity.{same}

abbrev pub one_of : ℕ → List ℕ → Bool
one_of c [] = false
one_of c (d ∷ ds) = same c d || one_of c ds

-- `_SOUNDEX_MAP.get(ch, "")`: BFPV, CGJKQSXZ, DT, L, MN and R
unfoldable pub soundex_code : ℕ → ℕ
soundex_code c =
    if one_of c (66 ∷ 70 ∷ 80 ∷ 86 ∷ [])
    then 49
    else if one_of c (67 ∷ 71 ∷ 74 ∷ 75 ∷ 81 ∷ 83 ∷ 88 ∷ 90 ∷ [])
    then 50
    else if one_of c (68 ∷ 84 ∷ [])
    then 51
    else if same c 76
    then 52
    else if one_of c (77 ∷ 78 ∷ [])
    then 53
    else if same c 82
    then 54
    else 0

-- The code of a letter, where it is appended
abbrev pub appended : ℕ → ℕ → List ℕ
appended code last = if same code 0 || same code last then [] else code ∷ []

-- The loop over the letters after the first
unfoldable pub encode : List ℕ → ℕ → List ℕ → List ℕ
encode encoded last [] = encoded
encode encoded last (c ∷ cs) =
    let encoded' = encoded ++ appended (soundex_code c) last in
    let rest = encode encoded' (soundex_code c) cs in
    if same (length encoded') 4 then encoded' else rest

-- Of the letters of the name
unfoldable pub soundex : List ℕ → List ℕ
soundex [] = []
soundex (first ∷ word) =
    take 4 (encode (first ∷ []) (soundex_code first) word ++ (48 ∷ 48 ∷ 48 ∷ []))

-- "ASHCRAFT" gives A226.
ashcraft : soundex (65 ∷ 83 ∷ 72 ∷ 67 ∷ 82 ∷ 65 ∷ 70 ∷ 84 ∷ []) ≡ 65 ∷ 50 ∷ 50 ∷ 54 ∷ []
unfolding soundex encode soundex_code
ashcraft = refl
