-- ===== src/Service/ContainerNames/Apart.antt =====
-- What a container's name of handle.py tells.
use Prim.Native.Char.{Char, code}
use activex_endpoint.Prelude.{
  ℕ, zero, suc, ◌+◌, ◌-◌, ◌≤◌, ◌≡◌, ◌≢◌, ◌⊎◌, refl, sym, ap, ◌∙◌, inl, inr, String, Option, none,
  some, nat_beq, nat_beq_iff, leb, leb→le, ◌<◌, Bool-cases, if◌then◌else◌, arith, lt→ltb,
}
use activex_endpoint.Text.{concat, decimal, to_version, rpartition_at, len, prefix}
use activex_endpoint.Text.Decimal.{decimal-Lacks, to_version-decimal}
use activex_endpoint.Text.Partition.{rpartition_at-concat}
use activex_endpoint.Service.ContainerNames.{
  clean, strip_left, strip_right, or_fn, suffix, cut, sanitize_container_name,
}

-- The number after a letter.
abbrev number_after : ℕ → String → Option ℕ
number_after letter String.[] = none
number_after letter (String.◌∷◌ c s) = if nat_beq (code c) letter then to_version s else none

abbrev with_index : ℕ → Option (String × String) → Option (ℕ × ℕ)
with_index i none = none
with_index i (some (before, after)) = elim (number_after b'v' after) [
  | none ↦ none
  | some v ↦ some (v, i)
]

abbrev read_last : Option (String × String) → Option (ℕ × ℕ)
read_last none = none
read_last (some (before, after)) = elim (number_after b'p' after) [
  | none ↦ with_index 0 (some (before, after))
  | some i ↦ with_index i (rpartition_at b'-' before)
]

-- The version and the pool index that a name ends in.
abbrev read_name : String → Option (ℕ × ℕ)
read_name name = read_last (rpartition_at b'-' name)

concat_assoc : (r s t : String) → concat r (concat s t) ≡ concat (concat r s) t
unfolding concat
concat_assoc String.[] s t = refl
concat_assoc (String.◌∷◌ c r) s t = ap (String.◌∷◌ c) (concat_assoc r s t)

-- A piece of a name after its last dash.
last_piece :
    (before : String) (letter : Char) (n : ℕ)
    → code letter ≢ b'-'
    → rpartition_at b'-' (concat before (String.◌∷◌ "-" (String.◌∷◌ letter (decimal n))))
      ≡ some (before, String.◌∷◌ letter (decimal n))
last_piece before letter n h =
    rpartition_at-concat "-" before (String.◌∷◌ letter (decimal n))
      (h, decimal-Lacks b'-' (inl (omega arith)) n)

read_last-first :
    (before : String) (v : ℕ) → read_last (some (before, String.◌∷◌ "v" (decimal v))) ≡ some (v, 0)
read_last-first before v = ground (arith, to_version-decimal v)

with_index-member :
    (before : String) (v i : ℕ)
    → with_index i (some (before, String.◌∷◌ "v" (decimal v))) ≡ some (v, i)
with_index-member before v i = ground (arith, to_version-decimal v)

read_last-member :
    (before : String) (i : ℕ)
    → read_last (some (before, String.◌∷◌ "p" (decimal i)))
      ≡ with_index i (rpartition_at b'-' before)
read_last-member before i = ground (arith, to_version-decimal i)

read_name-first :
    (before : String) (v : ℕ) → read_name (concat before (concat "-v" (decimal v))) ≡ some (v, 0)
unfolding concat
read_name-first before v =
    ap read_last (last_piece before "v" v (omega arith)) ∙ read_last-first before v

read_name-member :
    (before : String) (v i : ℕ)
    → read_name (concat before (concat (concat "-v" (decimal v)) (concat "-p" (decimal i))))
      ≡ some (v, i)
read_name-member before v i =
    let named = concat before (concat "-v" (decimal v)) in
    ap read_name (concat_assoc before (concat "-v" (decimal v)) (concat "-p" (decimal i)))
    ∙ (unfold concat in
        ap read_last (last_piece named "p" i (omega arith))
        ∙ read_last-member named i
        ∙ ap (with_index i) (last_piece before "v" v (omega arith))
        ∙ with_index-member before v i)

suffix-first : (v : ℕ) → suffix v 0 ≡ concat "-v" (decimal v)
unfolding suffix
suffix-first v = refl

suffix-member :
    (v i : ℕ) → suffix v (suc i) ≡ concat (concat "-v" (decimal v)) (concat "-p" (decimal (suc i)))
unfolding suffix
suffix-member v i = rw (lt→ltb 0 (suc i) (omega arith)) refl

read_name-suffix : (start : String) (v i : ℕ) → read_name (concat start (suffix v i)) ≡ some (v, i)
read_name-suffix start v zero =
    ap (λ end. read_name (concat start end)) (suffix-first v) ∙ read_name-first start v
read_name-suffix start v (suc i) =
    ap (λ end. read_name (concat start end)) (suffix-member v i) ∙ read_name-member start v (suc i)

-- A name tells the version and the pool index.
read_name-sanitize :
    (function_id : String) (v i : ℕ)
    → read_name (sanitize_container_name function_id v i) ≡ some (v, i)
unfolding sanitize_container_name
read_name-sanitize f v i =
    let slug = or_fn (strip_right (strip_left (clean f))) in
    let start = concat "fn-" (cut slug (suffix v i)) in
    ap read_name (concat_assoc "fn-" (cut slug (suffix v i)) (suffix v i))
    ∙ read_name-suffix start v i

len-concat : (s t : String) → len (concat s t) ≡ len s + len t
unfolding len concat
len-concat String.[] t = omega arith
len-concat (String.◌∷◌ c s) t = omega (arith, len-concat s t)

len-prefix : (n : ℕ) (s : String) → len (prefix n s) ≤ n
unfolding len prefix
len-prefix zero s = omega arith
len-prefix (suc n) String.[] = omega arith
len-prefix (suc n) (String.◌∷◌ c s) = omega (arith, len-prefix n s)

len-cut : (slug end : String) → len end ≤ 60 → len (cut slug end) + len end ≤ 60
unfolding cut
len-cut slug end h = ground (arith, h, len-prefix (60 - len end) slug)

len-sanitize :
    (function_id : String) (v i : ℕ)
    → len (suffix v i) ≤ 60
    → len (sanitize_container_name function_id v i) ≤ 63
unfolding sanitize_container_name
len-sanitize f v i h =
    let slug = or_fn (strip_right (strip_left (clean f))) in
    let start : len "fn-" ≡ 3 = (unfold len in refl) in
    omega (
      arith,
      start,
      len-concat "fn-" (concat (cut slug (suffix v i)) (suffix v i)),
      len-concat (cut slug (suffix v i)) (suffix v i),
      len-cut slug (suffix v i) h,
    )

same_name :
    (f g : String) (v w i j : ℕ)
    → sanitize_container_name f v i ≡ sanitize_container_name g w j
    → (v ≡ w) × (i ≡ j)
same_name f g v w i j same =
    let read : some (v, i) ≡ some (w, j) =
      sym (read_name-sanitize f v i) ∙ ap read_name same ∙ read_name-sanitize g w j in
    ground (arith, read)

-- However long the function ids are: containers of two versions, or of two members of a pool, have
-- different names; and a name has at most 63 characters, unless the version and the index take more
-- than 60 with their letters and dashes.
pub sanitize_container_name-apart :
    (f g : String) (v w i j : ℕ)
    → ((sanitize_container_name f v i ≢ sanitize_container_name g w j) ⊎ ((v ≡ w) × (i ≡ j)))
      × ((len (sanitize_container_name f v i) ≤ 63) ⊎ (60 < len (suffix v i)))
sanitize_container_name-apart f g v w i j = (
  elim (Bool-cases (nat_beq v w)) [
    | inr other ↦ inl (λ same. ground (arith, other, same_name f g v w i j same))
    | inl version ↦ elim (Bool-cases (nat_beq i j)) [
      | inr other ↦ inl (λ same. ground (arith, other, same_name f g v w i j same))
      | inl index ↦ inr ((nat_beq_iff v w).0 version, (nat_beq_iff i j).0 index)
    ]
  ],
  elim (Bool-cases (leb (len (suffix v i)) 60)) [
    | inl short ↦ inl (len-sanitize f v i (leb→le (len (suffix v i)) 60 short))
    | inr long ↦ inr (ground (arith, long))
  ],
)
