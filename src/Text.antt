-- ===== src/Text.antt =====
-- The text operations that keys and wire names go through: f-string concatenation, `str(int)`,
-- `int(str)` on decimal digits, and `str.rpartition`.
pub mod Decimal
pub mod Partition
use Prim.Native.Char.{Char, code}
use Prim.Native.String
use activex_endpoint.Prelude.{
  ℕ, zero, suc, ◌+◌, ◌-◌, ◌*◌, ◌/◌, ◌%◌, String, Bool, ◌&&◌, Option, none, some, ltb, leb, nat_beq,
  if◌then◌else◌, ◌||◌, true, false, List, [], ◌∷◌,
}

-- `s + t`
unfoldable pub concat : String → String → String
concat String.[] t = t
concat (String.◌∷◌ c s) t = String.◌∷◌ c (concat s t)

unfoldable pub char_or : String → ℕ → Char → Char
char_or String.[] i d = d
char_or (String.◌∷◌ c s) zero d = c
char_or (String.◌∷◌ c s) (suc i) d = char_or s i d

unfoldable pub digit : ℕ → Char
unfolding char_or
digit d = char_or "0123456789" d "0"

unfoldable pub digits : ℕ → ℕ → String → String
digits zero n rest = rest
digits (suc fuel) n rest =
    let shorter = digits fuel (n / 10) (String.◌∷◌ (digit (n % 10)) rest) in
    if ltb n 10 then String.◌∷◌ (digit n) rest else shorter

-- `str(n)`. A number has at most as many digits as its value plus one.
unfoldable pub decimal : ℕ → String
unfolding digits
decimal n = digits (suc n) n String.[]

abbrev between : ℕ → ℕ → ℕ → Bool
between low n high = leb low n && leb n high

-- `str.isspace` of a character code.
unfoldable pub is_space : ℕ → Bool
is_space n =
    between 9 n 13
    || between 28 n 32
    || nat_beq n 133
    || nat_beq n 160
    || nat_beq n 5760
    || between 8192 n 8202
    || between 8232 n 8233
    || nat_beq n 8239
    || nat_beq n 8287
    || nat_beq n 12288

-- The codes of the zeros of the decimal digits outside ASCII, of Unicode 14. Nine digits follow each.
abbrev other_zeros : List ℕ
other_zeros =
    1632 ∷ 1776 ∷ 1984 ∷ 2406 ∷ 2534 ∷ 2662 ∷ 2790 ∷ 2918 ∷ 3046 ∷ 3174 ∷ 3302 ∷ 3430 ∷ 3558 ∷ 3664
    ∷ 3792 ∷ 3872 ∷ 4160 ∷ 4240 ∷ 6112 ∷ 6160 ∷ 6470 ∷ 6608 ∷ 6784 ∷ 6800 ∷ 6992 ∷ 7088 ∷ 7232
    ∷ 7248 ∷ 42528 ∷ 43216 ∷ 43264 ∷ 43472 ∷ 43504 ∷ 43600 ∷ 44016 ∷ 65296 ∷ 66720 ∷ 68912 ∷ 69734
    ∷ 69872 ∷ 69942 ∷ 70096 ∷ 70384 ∷ 70736 ∷ 70864 ∷ 71248 ∷ 71360 ∷ 71472 ∷ 71904 ∷ 72016 ∷ 72784
    ∷ 73040 ∷ 73120 ∷ 92768 ∷ 92864 ∷ 93008 ∷ 120782 ∷ 120792 ∷ 120802 ∷ 120812 ∷ 120822 ∷ 123200
    ∷ 123632 ∷ 125264 ∷ 130032 ∷ []

unfoldable pub digit_after : List ℕ → ℕ → Option ℕ
digit_after [] n = none
digit_after (z ∷ zs) n =
    let rest = digit_after zs n in if between z n (z + 9) then some (n - z) else rest

-- The value of a decimal digit.
unfoldable pub digit_value : ℕ → Option ℕ
unfolding digit_after
digit_value n = if between b'0' n b'9' then some (n - b'0') else digit_after other_zeros n

unfoldable pub all_spaces : String → Bool
unfolding is_space
all_spaces String.[] = true
all_spaces (String.◌∷◌ c s) = is_space (code c) && all_spaces s

-- The digits of a number and the spaces behind them. After a sign or an underscore, and at the
-- start, a digit is due.
unfoldable pub read_digits : ℕ → Bool → String → Option ℕ
unfolding digit_value is_space all_spaces
read_digits n is_due String.[] = if is_due then none else some n
read_digits n is_due (String.◌∷◌ c s) = elim (digit_value (code c)) [
  | some d ↦ read_digits (n * 10 + d) false s
  | none ↦
      let next = read_digits n true s in
      if is_due
      then none
      else if nat_beq (code c) b'_'
      then next
      else if is_space (code c) && all_spaces s
      then some n
      else none
]

unfoldable pub skip_spaces : String → String
unfolding is_space
skip_spaces String.[] = String.[]
skip_spaces (String.◌∷◌ c s) =
    let rest = skip_spaces s in if is_space (code c) then rest else String.◌∷◌ c s

-- `negsuc n` is -(n + 1).
pub data ℤ : Type 0 where
  pos negsuc : ℕ → ℤ

abbrev negated : ℕ → ℤ
negated zero = pos 0
negated (suc n) = negsuc n

abbrev negate : Option ℕ → Option ℤ
negate none = none
negate (some n) = some (negated n)

abbrev positive : Option ℕ → Option ℤ
positive none = none
positive (some n) = some (pos n)

unfoldable pub read_signed : String → Option ℤ
unfolding read_digits
read_signed String.[] = none
read_signed (String.◌∷◌ c s) =
    if nat_beq (code c) b'-'
    then negate (read_digits 0 true s)
    else if nat_beq (code c) b'+'
    then positive (read_digits 0 true s)
    else positive (read_digits 0 true (String.◌∷◌ c s))

-- `int(s)`, with `none` for the ValueError. The interpreter's limit on the number of digits is not
-- modelled.
unfoldable pub int : String → Option ℤ
unfolding read_signed skip_spaces
int s = read_signed (skip_spaces s)

-- `int(s)` where it is not negative; `none` also where it is.
unfoldable pub to_version : String → Option ℕ
unfolding int
to_version s = elim (int s) [ none ↦ none | some (pos n) ↦ some n | some (negsuc n) ↦ none ]

-- `s.rpartition(sep)` at one character: the parts around the last `sep`, or `none` where there is none.
unfoldable pub rpartition_at : ℕ → String → Option (String × String)
rpartition_at sep String.[] = none
rpartition_at sep (String.◌∷◌ c s) = elim (rpartition_at sep s) [
  | some (before, after) ↦ some (String.◌∷◌ c before, after)
  | none ↦ if nat_beq (code c) sep then some (String.[], s) else none
]

-- `s.rpartition(":")`
abbrev pub rpartition_colon : String → Option (String × String)
rpartition_colon s = rpartition_at b':' s

abbrev drop_colon : String → Option String
drop_colon String.[] = none
drop_colon (String.◌∷◌ c s) = if nat_beq (code c) b':' then some s else none

-- `s.rpartition("::")`
unfoldable pub rpartition_colons : String → Option (String × String)
rpartition_colons String.[] = none
rpartition_colons (String.◌∷◌ c s) = elim (rpartition_colons s) [
  | some (before, after) ↦ some (String.◌∷◌ c before, after)
  | none ↦
      if nat_beq (code c) b':'
      then (elim (drop_colon s) [ none ↦ none | some rest ↦ some (String.[], rest) ])
      else none
]

-- `len(s)`
unfoldable pub len : String → ℕ
len String.[] = 0
len (String.◌∷◌ c s) = suc (len s)

-- `s[:n]`
unfoldable pub prefix : ℕ → String → String
prefix zero s = String.[]
prefix (suc n) String.[] = String.[]
prefix (suc n) (String.◌∷◌ c s) = String.◌∷◌ c (prefix n s)
