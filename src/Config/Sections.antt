-- ===== src/Config/Sections.antt =====
-- `_policy_sections` of agent_relay_runtime/config.py: the sections of automation-policy.yaml. A line stands
-- cut into its indent, its key and its value; lines that are blank, comments, or without a colon are
-- left out. A number with a point is an exact decimal, over ASCII.
use agent_relay_auto.Prelude.{
  ℕ, ◌+◌, ◌*◌, ◌^◌, ◌++◌, String, Bool, true, false, ◌&&◌, ◌||◌, Option, none, some, List, [], ◌∷◌,
  ◌==◌, if◌then◌else◌, Dict, lookup, insert, elem, codes, nat_eq, is_digit, digits_value,
  signed_value, python_int, negate,
}
use agent_relay_auto.Prelude.Int.{ℤ, pos, negsuc}
use agent_relay_auto.Runs.Rotate.{length}

-- `mantissa / 10 ^ places`
pub record Decimal : Type 0 where
  pub mantissa : ℤ
  pub places : ℕ

pub data Scalar : Type 0 where
  flag : Bool → Scalar
  whole : ℤ → Scalar
  decimal : Decimal → Scalar
  text : String → Scalar

pub record PolicyLine : Type 0 where
  pub indent : ℕ
  pub key : String
  pub value : String

-- the codes before the first point and those behind it
unfoldable pub at_point : List ℕ → Option (List ℕ × List ℕ)
at_point [] = none
at_point (c ∷ cs) =
    let rest = at_point cs in
    if nat_eq c 46 then some ([], cs) else elim rest [ none ↦ none | some p ↦ some (c ∷ p.0, p.1) ]

-- the codes before the first `e` or `E` and those behind it
unfoldable pub at_exponent : List ℕ → List ℕ × Option (List ℕ)
at_exponent [] = ([], none)
at_exponent (c ∷ cs) =
    let (digits, exponent) = at_exponent cs in
    if nat_eq c 101 || nat_eq c 69 then ([], some cs) else (c ∷ digits, exponent)

-- the digits of a group, without the single underscores between two of them
unfoldable pub digits_of : Bool → List ℕ → Option (List ℕ)
digits_of after [] = if after then some [] else none
digits_of after (c ∷ cs) =
    let more = digits_of true cs in
    let joined = digits_of false cs in
    if is_digit c
    then elim more [ none ↦ none | some ds ↦ some (c ∷ ds) ]
    else if after && nat_eq c 95
    then joined
    else none

unfoldable pub optional_digits : List ℕ → Option (List ℕ)
unfolding digits_of
optional_digits [] = some []
optional_digits (c ∷ cs) = digits_of false (c ∷ cs)

unfoldable pub is_negative : List ℕ → Bool
is_negative [] = false
is_negative (c ∷ cs) = nat_eq c 45

unfoldable pub unsigned : List ℕ → List ℕ
unsigned [] = []
unsigned (c ∷ cs) = if nat_eq c 45 || nat_eq c 43 then cs else c ∷ cs

-- the exponent of a number, 0 where there is none
unfoldable pub exponent_of : Option (List ℕ) → Option ℤ
unfolding signed_value
exponent_of none = some (pos 0)
exponent_of (some cs) = signed_value cs

-- the digits of a mantissa with so many places, of which there must be one, times a power of ten
unfoldable pub scaled : Bool → List ℕ → ℕ → ℤ → Option Decimal
unfolding digits_value
scaled minus [] places e = none
scaled minus (c ∷ cs) places e = elim (digits_value 0 (c ∷ cs)) [
  | none ↦ none
  | some n ↦ elim e [
    | pos k ↦ some (record {
      mantissa = if minus then negate (n * 10 ^ k) else pos (n * 10 ^ k);
      places = places;
    })
    | negsuc k ↦
        some (record { mantissa = if minus then negate n else pos n; places = places + (k + 1) })
  ]
]

-- `float(s)` of a text with a point, cut there
unfoldable pub decimal_literal : List ℕ × List ℕ → Option Decimal
unfolding at_exponent optional_digits is_negative unsigned exponent_of scaled length
decimal_literal (before, behind) =
    let cut = at_exponent behind in
    elim (optional_digits (unsigned before)) [
      | none ↦ none
      | some whole_part ↦ elim (optional_digits cut.0) [
        | none ↦ none
        | some part ↦ elim (exponent_of cut.1) [
          | none ↦ none
          | some e ↦ scaled (is_negative before) (whole_part ++ part) (length part) e
        ]
      ]
    ]

-- the value of a line: a Boolean, a number, or the text where it is neither
unfoldable pub scalar_of : String → Scalar
unfolding at_point decimal_literal python_int
scalar_of s =
    if s == "true"
    then flag true
    else if s == "false"
    then flag false
    else elim (at_point (codes s)) [
      | some p ↦ elim (decimal_literal p) [ none ↦ text s | some d ↦ decimal d ]
      | none ↦ elim (python_int s) [ none ↦ text s | some i ↦ whole i ]
    ]

abbrev pub Section : Type 0
Section = Dict Scalar

abbrev pub section_names : List String
section_names = "automation" ∷ "cost_control" ∷ "runtime" ∷ "reporting" ∷ []

unfoldable pub section_at : String → Dict Section → Section
unfolding lookup
section_at k sections = elim (lookup k sections) [ none ↦ [] | some m ↦ m ]

-- `sections.setdefault(current, {})`, where there is a key
unfoldable pub open_section : Option String → Dict Section → Dict Section
unfolding insert section_at
open_section none sections = sections
open_section (some k) sections =
    if k == "" then sections else insert k (section_at k sections) sections

-- `sections[current][key] = scalar`, in one of the four sections
unfoldable pub put_scalar : Option String → PolicyLine → Dict Section → Dict Section
unfolding elem insert section_at scalar_of
put_scalar none line sections = sections
put_scalar (some k) line sections =
    if nat_eq line.indent 2 && elem k section_names
    then insert k (insert line.key (scalar_of line.value) (section_at k sections)) sections
    else sections

-- the loop of `_policy_sections`
unfoldable pub read_lines : List PolicyLine → Option String → Dict Section → Dict Section
unfolding open_section put_scalar
read_lines [] current sections = sections
read_lines (line ∷ lines) current sections =
    let opened : Option String = if line.value == "" then some line.key else none in
    let top = read_lines lines opened (open_section opened sections) in
    let inner = read_lines lines current (put_scalar current line sections) in
    if nat_eq line.indent 0 then top else inner

unfoldable pub policy_sections : List PolicyLine → Dict Section
unfolding read_lines
policy_sections lines = read_lines lines none []
