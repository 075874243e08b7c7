-- ===== src/Examples/Wire.antt =====
-- A concrete `WireLib`: documents in prefix notation, after their size; bytes as unary numbers.
use Prim.Native.Char.{Char, char, code, IsLt}
use Prim.Native.Nat.{Ordering, compare}
use activex_endpoint.Prelude.{
  ℕ, zero, suc, ◌+◌, ◌≤◌, String, ◌≡◌, refl, ap, ◌∙◌, true, false, Option, none, some, [], ◌∷◌,
  arith, nat_beq, if◌then◌else◌,
}
use activex_endpoint.Prelude.Outcome.{◌>>=◌}
use activex_endpoint.Functions.Params.{
  Json, null, boolean, number, string, array, object, Items, end, item, Fields, close, field,
}
use activex_endpoint.Consensus.StateMachine.{Bytes}
use activex_endpoint.Consensus.Sync.{WireLib, IsFaithful}

abbrev IsBoth : Ordering → Ordering → Type 0
IsBoth Ordering.lt o = IsLt o
IsBoth Ordering.eq _ = ⊥
IsBoth Ordering.gt _ = ⊥

abbrev ScalarOf : Ordering → Ordering → Ordering → Type 0
ScalarOf Ordering.lt _ _ = Unit
ScalarOf Ordering.eq o p = IsBoth o p
ScalarOf Ordering.gt o p = IsBoth o p

is_lt : (o : Ordering) → Option (IsLt o)
is_lt Ordering.lt = some tt
is_lt Ordering.eq = none
is_lt Ordering.gt = none

is_both : (o p : Ordering) → Option (IsBoth o p)
unfolding is_lt
is_both Ordering.lt p = is_lt p
is_both Ordering.eq p = none
is_both Ordering.gt p = none

is_scalar : (o p q : Ordering) → Option (ScalarOf o p q)
unfolding is_both
is_scalar Ordering.lt p q = some tt
is_scalar Ordering.eq p q = is_both p q
is_scalar Ordering.gt p q = is_both p q

char_of : ℕ → Option Char
unfolding is_scalar
char_of n = do
  h ← is_scalar (compare n 55296) (compare 57343 n) (compare n 1114112)
  some (char n h)

is_lt-given : (o : Ordering) (h : IsLt o) → is_lt o ≡ some h
unfolding is_lt
is_lt-given Ordering.lt h = refl
is_lt-given Ordering.eq h = absurd h
is_lt-given Ordering.gt h = absurd h

is_both-given : (o p : Ordering) (h : IsBoth o p) → is_both o p ≡ some h
unfolding is_both
is_both-given Ordering.lt p h = is_lt-given p h
is_both-given Ordering.eq p h = absurd h
is_both-given Ordering.gt p h = absurd h

is_scalar-given : (o p q : Ordering) (h : ScalarOf o p q) → is_scalar o p q ≡ some h
unfolding is_scalar
is_scalar-given Ordering.lt p q h = refl
is_scalar-given Ordering.eq p q h = is_both-given p q h
is_scalar-given Ordering.gt p q h = is_both-given p q h

char_of-code : (c : Char) → char_of (code c) ≡ some c
unfolding char_of
char_of-code (char n h) =
    rw (is_scalar-given (compare n 55296) (compare 57343 n) (compare n 1114112) h)

enc_string : String → Bytes → Bytes
enc_string String.[] k = 0 ∷ k
enc_string (String.◌∷◌ c s) k = suc (code c) ∷ enc_string s k

dec_string : Bytes → Option (String × Bytes)
dec_string [] = none
dec_string (zero ∷ k) = some (String.[], k)
dec_string (suc n ∷ k) = do c ← char_of n; rest ← dec_string k; some (String.◌∷◌ c rest.0, rest.1)

dec_string-enc_string : (s : String) (k : Bytes) → dec_string (enc_string s k) ≡ some (s, k)
unfolding dec_string enc_string
dec_string-enc_string String.[] k = refl
dec_string-enc_string (String.◌∷◌ c s) k = rw (char_of-code c, dec_string-enc_string s k)

mutual
  size : Json → ℕ
  size (array vs) = items_size vs + 1
  size (object fs) = fields_size fs + 1
  size v = 1

  items_size : Items → ℕ
  items_size end = 1
  items_size (item v vs) = size v + items_size vs + 1

  fields_size : Fields → ℕ
  fields_size close = 1
  fields_size (field key v fs) = size v + fields_size fs + 1

mutual
  enc : Json → Bytes → Bytes
  enc null k = 0 ∷ k
  enc (boolean b) k = (if b then 1 else 2) ∷ k
  enc (number s) k = 3 ∷ enc_string s k
  enc (string s) k = 4 ∷ enc_string s k
  enc (array vs) k = 5 ∷ enc_items vs k
  enc (object fs) k = 6 ∷ enc_fields fs k

  enc_items : Items → Bytes → Bytes
  enc_items end k = 0 ∷ k
  enc_items (item v vs) k = 1 ∷ enc v (enc_items vs k)

  enc_fields : Fields → Bytes → Bytes
  enc_fields close k = 0 ∷ k
  enc_fields (field key v fs) k = 1 ∷ enc_string key (enc v (enc_fields fs k))

mutual
  dec : ℕ → Bytes → Option (Json × Bytes)
  dec (suc n) (zero ∷ k) = some (null, k)
  dec (suc n) (suc zero ∷ k) = some (boolean true, k)
  dec (suc n) (suc (suc zero) ∷ k) = some (boolean false, k)
  dec (suc n) (suc (suc (suc zero)) ∷ k) = do r ← dec_string k; some (number r.0, r.1)
  dec (suc n) (suc (suc (suc (suc zero))) ∷ k) = do r ← dec_string k; some (string r.0, r.1)
  dec (suc n) (suc (suc (suc (suc (suc zero)))) ∷ k) = do r ← dec_items n k; some (array r.0, r.1)
  dec (suc n) (suc (suc (suc (suc (suc (suc zero))))) ∷ k) = do
    r ← dec_fields n k
    some (object r.0, r.1)
  dec _ _ = none

  dec_items : ℕ → Bytes → Option (Items × Bytes)
  dec_items (suc n) (zero ∷ k) = some (end, k)
  dec_items (suc n) (suc zero ∷ k) = do
    v ← dec n k
    vs ← dec_items n v.1
    some (item v.0 vs.0, vs.1)
  dec_items _ _ = none

  dec_fields : ℕ → Bytes → Option (Fields × Bytes)
  dec_fields (suc n) (zero ∷ k) = some (close, k)
  dec_fields (suc n) (suc zero ∷ k) = do
    key ← dec_string k
    v ← dec n key.1
    fs ← dec_fields n v.1
    some (field key.0 v.0 fs.0, fs.1)
  dec_fields _ _ = none

unary : ℕ → String → String
unary zero s = s
unary (suc n) s = String.◌∷◌ "1" (unary n s)

spell : Bytes → String
unfolding unary
spell [] = String.[]
spell (n ∷ ns) = unary n (String.◌∷◌ "," (spell ns))

unspell : ℕ → String → Bytes
unspell n String.[] = []
unspell n (String.◌∷◌ c s) =
    let more = unspell (n + 1) s in
    let next = n ∷ unspell 0 s in if nat_beq (code c) 49 then more else next

unspell-unary : (n m : ℕ) (s : String) → unspell m (unary n s) ≡ unspell (n + m) s
unfolding unspell unary
unspell-unary zero m s = ap (λ k. unspell k s) (omega arith)
unspell-unary (suc n) m s = unspell-unary n (m + 1) s ∙ ap (λ k. unspell k s) (omega arith)

unspell-spell : (b : Bytes) → unspell 0 (spell b) ≡ b
unfolding unspell spell
unspell-spell [] = refl
unspell-spell (n ∷ ns) =
    unspell-unary n 0 (String.◌∷◌ "," (spell ns))
    ∙ rw (unspell-spell ns) (ap (λ m. m ∷ ns) (omega arith))

first_of : Option (Json × Bytes) → Option Json
first_of none = none
first_of (some (v, rest)) = some v

decoded : Bytes → Option Json
unfolding dec first_of
decoded [] = none
decoded (n ∷ b) = first_of (dec n b)

pub wire : WireLib
unfolding size enc decoded spell unspell
wire = record {
  dumps = λ v. size v ∷ enc v [];
  loads = decoded;
  b64encode = spell;
  b64decode = λ s. some (unspell 0 s);
}

size-positive : (v : Json) → 1 ≤ size v
unfolding size
size-positive null = omega arith
size-positive (boolean b) = omega arith
size-positive (number s) = omega arith
size-positive (string s) = omega arith
size-positive (array vs) = omega arith
size-positive (object fs) = omega arith

items_size-positive : (vs : Items) → 1 ≤ items_size vs
unfolding items_size
items_size-positive end = omega arith
items_size-positive (item v vs) = omega arith

fields_size-positive : (fs : Fields) → 1 ≤ fields_size fs
unfolding fields_size
fields_size-positive close = omega arith
fields_size-positive (field key v fs) = omega arith

mutual
  unfolding dec enc size

  dec-enc : (v : Json) (n : ℕ) (k : Bytes) → size v ≤ n → dec n (enc v k) ≡ some (v, k)
  dec-enc null (suc n) k h = refl
  dec-enc (boolean true) (suc n) k h = refl
  dec-enc (boolean false) (suc n) k h = refl
  dec-enc (number s) (suc n) k h = rw (dec_string-enc_string s k)
  dec-enc (string s) (suc n) k h = rw (dec_string-enc_string s k)
  dec-enc (array vs) (suc n) k h = rw (items-enc vs n k (omega (arith, h)))
  dec-enc (object fs) (suc n) k h = rw (fields-enc fs n k (omega (arith, h)))
  dec-enc v zero k h = absurd (omega (arith, h, size-positive v))

  items-enc :
      (vs : Items) (n : ℕ) (k : Bytes)
      → items_size vs ≤ n
      → dec_items n (enc_items vs k) ≡ some (vs, k)
  items-enc end (suc n) k h = refl
  items-enc (item v vs) (suc n) k h =
      rw (dec-enc v n (enc_items vs k) (omega (arith, h)), items-enc vs n k (omega (arith, h)))
  items-enc vs zero k h = absurd (omega (arith, h, items_size-positive vs))

  fields-enc :
      (fs : Fields) (n : ℕ) (k : Bytes)
      → fields_size fs ≤ n
      → dec_fields n (enc_fields fs k) ≡ some (fs, k)
  fields-enc close (suc n) k h = refl
  fields-enc (field key v fs) (suc n) k h = rw (
    dec_string-enc_string key (enc v (enc_fields fs k)),
    dec-enc v n (enc_fields fs k) (omega (arith, h)),
    fields-enc fs n k (omega (arith, h)),
  )
  fields-enc fs zero k h = absurd (omega (arith, h, fields_size-positive fs))

wire_read : (v : Json) → decoded (size v ∷ enc v []) ≡ some v
unfolding decoded first_of
wire_read v = rw (dec-enc v (size v) [] (omega arith))

pub wire-IsFaithful : IsFaithful wire
unfolding wire
wire-IsFaithful = record {
  loads-dumps = wire_read;
  dumps-nonempty = λ v. refl;
  b64decode-b64encode = λ b. ap some (unspell-spell b);
}
