-- ===== src/Prelude/Text.antt =====
-- Texts: concatenation, `sep.join(...)`, `str(n)` of an integer, slices, counts and substrings.
use Prim.Native.Nat.{ℕ, zero, suc, ◌+◌, ◌/◌, ◌%◌}
use Prim.Native.String.{String, ◌++◌}
use Prim.Native.Char.{code}
use mathlib.Core.List.{List, [], ◌∷◌}
use mathlib.Core.Bool.{Bool, true, false, ◌||◌}
use fraudnet.Prelude.Tests.{ltb, if◌then◌else◌}
use fraudnet.Prelude.Int.{ℤ, pos, negsuc}

-- an f-string of these parts
unfoldable pub concat : List String → String
concat [] = ""
concat (s ∷ ss) = s ++ concat ss

-- `sep.join(parts)`
unfoldable pub join : String → List String → String
join sep [] = ""
join sep (s ∷ []) = s
join sep (s ∷ t ∷ ss) = s ++ (sep ++ join sep (t ∷ ss))

digit : ℕ → String
digit zero = "0"
digit (suc zero) = "1"
digit (suc (suc zero)) = "2"
digit (suc (suc (suc zero))) = "3"
digit (suc (suc (suc (suc zero)))) = "4"
digit (suc (suc (suc (suc (suc zero))))) = "5"
digit (suc (suc (suc (suc (suc (suc zero)))))) = "6"
digit (suc (suc (suc (suc (suc (suc (suc zero))))))) = "7"
digit (suc (suc (suc (suc (suc (suc (suc (suc zero)))))))) = "8"
digit _ = "9"

-- A number has at most as many digits as its value and one more, which is the fuel.
decimal : ℕ → ℕ → String
decimal zero n = ""
decimal (suc fuel) n =
    let front = decimal fuel (n / 10) in if ltb n 10 then digit n else front ++ digit (n % 10)

-- `str(n)`
unfoldable pub str_nat : ℕ → String
unfolding decimal digit
str_nat n = decimal (n + 1) n

unfoldable pub str_int : ℤ → String
unfolding str_nat
str_int (pos n) = str_nat n
str_int (negsuc n) = "-" ++ str_nat (n + 1)

-- `s.count(c)` of one character, by its code
unfoldable pub count_char : ℕ → String → ℕ
count_char c String.[] = 0
count_char c (String.◌∷◌ d s) =
    if ltb (code d) c || ltb c (code d) then count_char c s else suc (count_char c s)

-- `s[:n]`
unfoldable pub take_text : ℕ → String → String
take_text zero s = ""
take_text (suc n) String.[] = ""
take_text (suc n) (String.◌∷◌ c s) = String.◌∷◌ c (take_text n s)

starts_with : String → String → Bool
starts_with String.[] s = true
starts_with (String.◌∷◌ c t) String.[] = false
starts_with (String.◌∷◌ c t) (String.◌∷◌ d s) =
    let rest = starts_with t s in
    if ltb (code d) (code c) || ltb (code c) (code d) then false else rest

-- `t in s`
unfoldable pub has_text : String → String → Bool
unfolding starts_with
has_text t String.[] = starts_with t String.[]
has_text t (String.◌∷◌ c s) = starts_with t (String.◌∷◌ c s) || has_text t s

-- `s.split(c, 1)[0]` of one character, by its code
unfoldable pub before_char : ℕ → String → String
before_char c String.[] = ""
before_char c (String.◌∷◌ d s) =
    let rest = before_char c s in if ltb (code d) c || ltb c (code d) then String.◌∷◌ d rest else ""
