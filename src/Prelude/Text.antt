-- ===== src/Prelude/Text.antt =====
-- Texts: decimal numerals both ways, and the character classes of the program's patterns.
use Prim.Native.Nat.{ℕ, zero, suc, ◌+◌, ◌-◌, ◌*◌, ◌/◌, ◌%◌}
use Prim.Native.Char.{code}
use Prim.Native.String.{String}
use Prim.Native.String.{◌++◌ as ◌<>◌}
use mathlib.Core.Bool.{Bool, true, false, ◌&&◌}
use mathlib.Core.Option
use mathlib.Core.Option.{Option, none, some}
use mathlib.Core.List.{List, [], ◌∷◌, map}
use agent_relay_auto.Prelude.Tests.{leb, ltb, nat_eq, if◌then◌else◌}
use agent_relay_auto.Prelude.Int.{ℤ, pos, negsuc}

-- The code points of a text.
abbrev pub codes : String → List ℕ
codes String.[] = []
codes (String.◌∷◌ c s) = code c ∷ codes s

abbrev pub is_digit : ℕ → Bool
is_digit c = leb 48 c && leb c 57

-- `[0-9]+` read as a number.
unfoldable pub digits_value : ℕ → List ℕ → Option ℕ
digits_value acc [] = some acc
digits_value acc (c ∷ cs) =
    let rest = digits_value (acc * 10 + (c - 48)) cs in if is_digit c then rest else none

abbrev pub negate : ℕ → ℤ
negate zero = pos 0
negate (suc n) = negsuc n

unfoldable pub int_codes : List ℕ → Option ℤ
unfolding digits_value
int_codes [] = none
int_codes (c ∷ []) = if is_digit c then some (pos (c - 48)) else none
int_codes (c ∷ d ∷ cs) =
    if nat_eq c 45
    then Option.map negate (digits_value 0 (d ∷ cs))
    else Option.map pos (digits_value 0 (c ∷ d ∷ cs))

-- `re.fullmatch(r"-?\d+", s)` and the `int(s)` of the match, over ASCII digits.
unfoldable pub int_literal : String → Option ℤ
unfolding int_codes
int_literal s = int_codes (codes s)

-- the white space that `int` and `float` strip
abbrev pub is_space : ℕ → Bool
is_space c = if leb 9 c && leb c 13 then true else nat_eq c 32

unfoldable pub all_spaces : List ℕ → Bool
all_spaces [] = true
all_spaces (c ∷ cs) = is_space c && all_spaces cs

-- The digits of a numeral, with one underscore allowed between two of them and white space behind
-- the last one; the flag says whether a digit was read just before.
unfoldable pub numeral_value : Bool → ℕ → List ℕ → Option ℕ
unfolding all_spaces
numeral_value after acc [] = if after then some acc else none
numeral_value after acc (c ∷ cs) =
    let more = numeral_value true (acc * 10 + (c - 48)) cs in
    let joined = numeral_value false acc cs in
    if is_digit c
    then more
    else if after && nat_eq c 95
    then joined
    else if after && all_spaces (c ∷ cs)
    then some acc
    else none

unfoldable pub skip_spaces : List ℕ → List ℕ
skip_spaces [] = []
skip_spaces (c ∷ cs) = let rest = skip_spaces cs in if is_space c then rest else c ∷ cs

unfoldable pub signed_value : List ℕ → Option ℤ
unfolding numeral_value
signed_value [] = none
signed_value (c ∷ cs) =
    if nat_eq c 45
    then Option.map negate (numeral_value false 0 cs)
    else if nat_eq c 43
    then Option.map pos (numeral_value false 0 cs)
    else Option.map pos (numeral_value false 0 (c ∷ cs))

-- `int(s)`, over ASCII.
unfoldable pub python_int : String → Option ℤ
unfolding skip_spaces signed_value
python_int s = signed_value (skip_spaces (codes s))

abbrev lower : ℕ → ℕ
lower c = if leb 65 c && leb c 90 then c + 32 else c

-- `s.lower()`, over ASCII.
abbrev pub lower_codes : String → List ℕ
lower_codes s = map lower (codes s)

abbrev pub same_codes : List ℕ → List ℕ → Bool
same_codes [] [] = true
same_codes (a ∷ as') (b ∷ bs) = nat_eq a b && same_codes as' bs
same_codes _ _ = false

abbrev digit_text : ℕ → String
digit_text d =
    if nat_eq d 0
    then "0"
    else if nat_eq d 1
    then "1"
    else if nat_eq d 2
    then "2"
    else if nat_eq d 3
    then "3"
    else if nat_eq d 4
    then "4"
    else if nat_eq d 5
    then "5"
    else if nat_eq d 6
    then "6"
    else if nat_eq d 7
    then "7"
    else if nat_eq d 8
    then "8"
    else "9"

-- The digits of `n`, the fuel a bound of their number.
show_digits : ℕ → ℕ → String → String
show_digits zero n rest = rest
show_digits (suc fuel) n rest =
    let out = digit_text (n % 10) <> rest in
    let more = show_digits fuel (n / 10) out in if ltb n 10 then out else more

-- `str(i)`. `n + 1` rounds are enough, since a numeral is no longer than its number.
unfoldable pub show_int : ℤ → String
unfolding show_digits
show_int (pos n) = show_digits (n + 1) n ""
show_int (negsuc n) = "-" <> show_digits (n + 2) (n + 1) ""
