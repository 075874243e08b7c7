-- ===== src/Text/Decimal.antt =====
-- Reading back a printed number.
use Prim.Native.Char.{code}
use activex_endpoint.Prelude.{
  leb, ◌≤◌, ◌&&◌, false, ℕ, zero, suc, ◌+◌, ◌*◌, ◌/◌, ◌%◌, ◌<◌, String, ◌≡◌, ◌≢◌, ◌⊎◌, refl, Bool,
  true, false, some, arith, ltb, Bool-cases, inl, inr, ltb→lt, ◌∙◌,
}
use activex_endpoint.Text.{
  digit, digits, decimal, digit_value, is_space, skip_spaces, read_digits, read_signed, pos, int,
  to_version,
}

code-digit : (d : ℕ) → d < 10 → code (digit d) ≡ 48 + d
unfolding digit
code-digit zero h = refl
code-digit (suc zero) h = refl
code-digit (suc (suc zero)) h = refl
code-digit (suc (suc (suc zero))) h = refl
code-digit (suc (suc (suc (suc zero)))) h = refl
code-digit (suc (suc (suc (suc (suc zero))))) h = refl
code-digit (suc (suc (suc (suc (suc (suc zero)))))) h = refl
code-digit (suc (suc (suc (suc (suc (suc (suc zero))))))) h = refl
code-digit (suc (suc (suc (suc (suc (suc (suc (suc zero)))))))) h = refl
code-digit (suc (suc (suc (suc (suc (suc (suc (suc (suc zero))))))))) h = refl
code-digit (suc (suc (suc (suc (suc (suc (suc (suc (suc (suc n)))))))))) h = absurd (omega arith)

digit_value-digit : (d : ℕ) → d < 10 → digit_value (code (digit d)) ≡ some d
unfolding digit_value
digit_value-digit d h = ground (arith, code-digit d h)

read_digits-digit :
    (n d : ℕ) (is_due : Bool) (s : String)
    → d < 10
    → read_digits n is_due (String.◌∷◌ (digit d) s) ≡ read_digits (n * 10 + d) false s
unfolding read_digits
read_digits-digit n d is_due s h = rw (digit_value-digit d h, read_digits) refl

read_digits-digits :
    (fuel n : ℕ) (is_due : Bool) (rest : String)
    → n < fuel
    → read_digits 0 is_due (digits fuel n rest) ≡ read_digits n false rest
unfolding digits
read_digits-digits zero n is_due rest h = absurd (omega arith)
read_digits-digits (suc fuel) n is_due rest h = ground (
  arith,
  read_digits-digit 0 n is_due rest,
  read_digits-digit (n / 10) (n % 10) false rest,
  read_digits-digits fuel (n / 10) is_due (String.◌∷◌ (digit (n % 10)) rest),
)

-- No character of the text has the code `n`.
abbrev pub Lacks : ℕ → String → Type 0
Lacks n String.[] = Unit
Lacks n (String.◌∷◌ c s) = (code c ≢ n) × Lacks n s

-- No character of the text is a colon.
abbrev pub NoColon : String → Type 0
NoColon s = Lacks b':' s

-- The code of no digit.
abbrev pub NoDigit : ℕ → Type 0
NoDigit n = (n < 48) ⊎ (57 < n)

digits-Lacks :
    (k : ℕ) (d : NoDigit k) (fuel n : ℕ) (rest : String)
    → Lacks k rest
    → Lacks k (digits fuel n rest)
unfolding digits
digits-Lacks k d zero n rest h = h
digits-Lacks k d (suc fuel) n rest h = elim (Bool-cases (ltb n 10)) [
  | inl small ↦
      let lt : n < 10 = ltb→lt n 10 small in rw small (ground (arith, d, code-digit n lt), h)
  | inr large ↦ rw large (
      digits-Lacks k d fuel (n / 10) (String.◌∷◌ (digit (n % 10)) rest)
        (ground (arith, d, code-digit (n % 10) (omega arith)), h))
]

pub decimal-Lacks : (k : ℕ) → NoDigit k → (n : ℕ) → Lacks k (decimal n)
unfolding decimal
decimal-Lacks k d n = digits-Lacks k d (suc n) n String.[] tt

pub decimal-NoColon : (n : ℕ) → NoColon (decimal n)
decimal-NoColon n = decimal-Lacks b':' (inr (omega arith)) n

-- The text starts with an ASCII digit.
abbrev starts_digit : String → Bool
starts_digit String.[] = false
starts_digit (String.◌∷◌ c s) = leb 48 (code c) && leb (code c) 57

digits-starts :
    (fuel n : ℕ) (rest : String)
    → starts_digit rest ≡ true
    → starts_digit (digits fuel n rest) ≡ true
unfolding digits
digits-starts zero n rest h = h
digits-starts (suc fuel) n rest h = ground (
  arith,
  code-digit n,
  code-digit (n % 10),
  digits-starts fuel (n / 10) (String.◌∷◌ (digit (n % 10)) rest),
)

decimal-starts : (n : ℕ) → starts_digit (decimal n) ≡ true
unfolding decimal digits
decimal-starts n = ground (
  arith,
  code-digit n,
  code-digit (n % 10),
  digits-starts n (n / 10) (String.◌∷◌ (digit (n % 10)) String.[]),
)

is_space-digit : (n : ℕ) → 48 ≤ n → n ≤ 57 → is_space n ≡ false
unfolding is_space
is_space-digit n low high = ground (arith, low, high)

skip_spaces-digit : (s : String) → starts_digit s ≡ true → skip_spaces s ≡ s
unfolding skip_spaces
skip_spaces-digit String.[] h = refl
skip_spaces-digit (String.◌∷◌ c s) h = ground (arith, h, is_space-digit (code c))

read_signed-digit :
    (s : String) {n : ℕ}
    → starts_digit s ≡ true
    → read_digits 0 true s ≡ some n
    → read_signed s ≡ some (pos n)
unfolding read_signed
read_signed-digit String.[] starts h = cc
read_signed-digit (String.◌∷◌ c s) starts h = ground (arith, starts, h)

int_of_digits :
    (s : String) {n : ℕ}
    → starts_digit s ≡ true
    → read_digits 0 true s ≡ some n
    → int s ≡ some (pos n)
unfolding int
int_of_digits s starts h = rw (skip_spaces-digit s starts) (read_signed-digit s starts h)

-- `int(str(n)) == n`
pub int-decimal : (n : ℕ) → int (decimal n) ≡ some (pos n)
int-decimal n = int_of_digits (decimal n) (decimal-starts n) (
    unfold decimal in
    read_digits-digits (suc n) n true String.[] (omega arith) ∙ (unfold read_digits in refl))

pub to_version-decimal : (n : ℕ) → to_version (decimal n) ≡ some n
unfolding to_version
to_version-decimal n = rw (int-decimal n, to_version) refl
