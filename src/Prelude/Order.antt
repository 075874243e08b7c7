-- ===== src/Prelude/Order.antt =====
-- Python's order on keys, `max` and `sorted(set(...))`. On `str` it is lexicographic, by code points.
use Prim.Native.Char.{code}
use Prim.Native.String.{String}
use Prim.Native.Nat.{compare, Ordering}
use text.Mathlib.TextEquality.{Char-path}
use mathlib.Core.Path.{◌≡◌, refl, ap₂}
use mathlib.Core.Logic.{◌⊎◌, inl, inr}
use mathlib.Core.Bool.{Bool, true, false, ◌||◌}
use mathlib.Core.List.{List, [], ◌∷◌}
use native.Mathlib.Omega.{arith}
use activex_endpoint.Prelude.Tests.{if◌then◌else◌}
use activex_endpoint.Prelude.Equality.{Eq, ◌==◌, nat_eq, string_eq}
use activex_endpoint.Prelude.Sets.{contains}

pub record Ord {ℓ} (A : Type ℓ) : Type ℓ where
  pub le : A → A → Bool
  pub le_total : (a b : A) → (le a b ≡ true) ⊎ (le b a ≡ true)
  pub le_antisymm : (a b : A) → le a b ≡ true → le b a ≡ true → a ≡ b
  pub le_trans : (a b c : A) → le a b ≡ true → le b c ≡ true → le a c ≡ true

abbrev by_head : Ordering → Bool → Bool
by_head Ordering.lt rest = true
by_head Ordering.eq rest = rest
by_head Ordering.gt rest = false

unfoldable pub str_le : String → String → Bool
str_le String.[] t = true
str_le (String.◌∷◌ c s) String.[] = false
str_le (String.◌∷◌ c s) (String.◌∷◌ d t) = by_head (compare (code c) (code d)) (str_le s t)

pub str_le_total : (s t : String) → (str_le s t ≡ true) ⊎ (str_le t s ≡ true)
unfolding str_le
str_le_total String.[] t = inl refl
str_le_total (String.◌∷◌ c s) String.[] = inr refl
str_le_total (String.◌∷◌ c s) (String.◌∷◌ d t) = ground (arith, str_le_total s t)

pub str_le_antisymm : (s t : String) → str_le s t ≡ true → str_le t s ≡ true → s ≡ t
unfolding str_le
str_le_antisymm String.[] String.[] h k = refl
str_le_antisymm String.[] (String.◌∷◌ d t) h k = ground arith
str_le_antisymm (String.◌∷◌ c s) String.[] h k = ground arith
str_le_antisymm (String.◌∷◌ c s) (String.◌∷◌ d t) h k =
    ap₂ String.◌∷◌ (Char-path c d (ground arith))
      (str_le_antisymm s t (ground arith) (ground arith))

pub str_le_trans : (r s t : String) → str_le r s ≡ true → str_le s t ≡ true → str_le r t ≡ true
unfolding str_le
str_le_trans String.[] s t h k = refl
str_le_trans (String.◌∷◌ b r) String.[] t h k = ground arith
str_le_trans (String.◌∷◌ b r) (String.◌∷◌ c s) String.[] h k = ground arith
str_le_trans (String.◌∷◌ b r) (String.◌∷◌ c s) (String.◌∷◌ d t) h k =
    ground (arith, str_le_trans r s t)

instance abbrev pub string_ord : Ord String
string_ord = record {
  le = str_le;
  le_total = str_le_total;
  le_antisymm = str_le_antisymm;
  le_trans = str_le_trans;
}

module _ {ℓ} {A : Type ℓ} ⦃e : Eq A⦄ ⦃o : Ord A⦄ where
  -- `max([x, *xs])`
  unfoldable pub max_of : A → List A → A
  max_of x [] = x
  max_of x (y ∷ ys) = max_of (if o.le x y then y else x) ys

  -- `sorted(set(xs))`, and `sorted(xs)` of a list without duplicates
  unfoldable pub insert_sorted : A → List A → List A
  insert_sorted x [] = x ∷ []
  insert_sorted x (y ∷ ys) =
      let rest = insert_sorted x ys in
      if x == y then y ∷ ys else if o.le x y then x ∷ y ∷ ys else y ∷ rest

  unfoldable pub sorted_set : List A → List A
  unfolding insert_sorted
  sorted_set [] = []
  sorted_set (x ∷ xs) = insert_sorted x (sorted_set xs)

  pub max_of-ge_start : (x : A) (xs : List A) → o.le x (max_of x xs) ≡ true
  unfolding max_of
  max_of-ge_start x [] = ground (arith, o.le_total x x)
  max_of-ge_start x (y ∷ ys) = ground (
    arith,
    o.le_total x y,
    max_of-ge_start (if o.le x y then y else x) ys,
    o.le_trans x y (max_of y ys),
  )

  pub max_of-ge : (x : A) (xs : List A) (a : A) → contains xs a ≡ true → o.le a (max_of x xs) ≡ true
  unfolding max_of contains
  max_of-ge x [] a h = ground arith
  max_of-ge x (y ∷ ys) a h = ground (
    arith,
    e.beq_iff y a,
    o.le_total x y,
    max_of-ge_start (if o.le x y then y else x) ys,
    o.le_trans y x (max_of x ys),
    max_of-ge (if o.le x y then y else x) ys a,
  )

  pub max_of-mem : (x : A) (xs : List A) → contains (x ∷ xs) (max_of x xs) ≡ true
  unfolding max_of contains
  max_of-mem x [] = ground (arith, e.beq_iff x x)
  max_of-mem x (y ∷ ys) = ground (arith, max_of-mem (if o.le x y then y else x) ys)

  pub contains-insert_sorted :
      (x : A) (ys : List A) (a : A) → contains (insert_sorted x ys) a ≡ (x == a || contains ys a)
  unfolding insert_sorted contains
  contains-insert_sorted x [] a = refl
  contains-insert_sorted x (y ∷ ys) a =
      ground (arith, e.beq_iff x y, e.beq_iff x a, e.beq_iff y a, contains-insert_sorted x ys a)

  pub contains-sorted_set : (xs : List A) (a : A) → contains (sorted_set xs) a ≡ contains xs a
  unfolding sorted_set contains
  contains-sorted_set [] a = refl
  contains-sorted_set (x ∷ xs) a =
      ground (arith, contains-insert_sorted x (sorted_set xs) a, contains-sorted_set xs a)
