-- ===== src/Storage/Key.antt =====
-- `StorageKey` of axo_endpoint/core/storage/backend.py. A version is a number from 0 on.
pub mod RoundTrip
use Prim.Native.Char.{code}
use Prim.Native.String
use activex_endpoint.Prelude.{
  ℕ, String, ◌≡◌, ◌↔◌, refl, ap, Bool, true, false, ◌&&◌, Option, none, some, List, [], ◌∷◌, arith,
  Eq, ◌==◌, nat_beq, nat_eq, string_eq, option_eq, option_beq_iff, if◌then◌else◌,
}
use activex_endpoint.Text.{concat, decimal, ℤ, pos, negsuc, int}

pub record StorageKey : Type 0 where
  pub id : String
  pub version : Option ℕ
  pub alias : Option String

abbrev pub key_beq : StorageKey → StorageKey → Bool
key_beq k j = k.id == j.id && (k.version == j.version && k.alias == j.alias)

pub key_beq_iff : (k j : StorageKey) → (key_beq k j ≡ true) ↔ (k ≡ j)
key_beq_iff k j = ground (
  arith,
  string_eq.beq_iff k.id j.id,
  option_beq_iff ⦃e = nat_eq⦄ k.version j.version,
  option_beq_iff ⦃e = string_eq⦄ k.alias j.alias,
)

instance abbrev pub key_eq : Eq StorageKey
key_eq = record { beq = key_beq; beq_iff = key_beq_iff }

unfoldable pub to_str : StorageKey → String
to_str k = elim k.version [
  | some version ↦ elim k.alias [
    | some alias ↦ concat k.id (concat ":" (concat (decimal version) (concat ":" alias)))
    | none ↦ concat k.id (concat ":" (decimal version))
  ]
  | none ↦ elim k.alias [ some alias ↦ concat k.id (concat ":" alias) | none ↦ k.id ]
]

-- `s.split(":")`: the first part, and the others.
unfoldable pub split_colon : String → String × List String
split_colon String.[] = (String.[], [])
split_colon (String.◌∷◌ c s) =
    let (first, others) = split_colon s in
    if nat_beq (code c) b':' then (String.[], first ∷ others) else (String.◌∷◌ c first, others)

-- What a text reads as: a key, the ValueError, or a key whose version is negative, which the keys here
-- cannot hold.
pub data Parsed : Type 0 where
  parsed : StorageKey → Parsed
  value_error : Parsed
  negative : String → ℤ → Option String → Parsed

abbrev of_version : String → ℤ → Option String → Parsed
of_version id (pos n) alias = parsed (record { id = id; version = some n; alias = alias })
of_version id (negsuc n) alias = negative id (negsuc n) alias

unfoldable pub from_parts : String → List String → Parsed
from_parts id [] = parsed (record { id = id; version = none; alias = none })
from_parts id (part ∷ []) = elim (int part) [
  | some version ↦ of_version id version none
  | none ↦ parsed (record { id = id; version = none; alias = some part })
]
from_parts id (part ∷ alias ∷ []) = elim (int part) [
  | some version ↦ of_version id version (some alias)
  | none ↦ value_error
]
from_parts id (part ∷ alias ∷ more ∷ parts) = value_error

unfoldable pub from_str : String → Parsed
unfolding split_colon from_parts
from_str x = let (first, others) = split_colon x in from_parts first others
