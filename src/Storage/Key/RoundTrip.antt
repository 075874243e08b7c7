-- ===== src/Storage/Key/RoundTrip.antt =====
-- `StorageKey.from_str` after `StorageKey.to_str` of axo_endpoint/core/storage/backend.py.
use activex_endpoint.Prelude.{ℕ, String, ◌≡◌, refl, Option, none, some, [], ◌∷◌, arith}
use activex_endpoint.Text.{concat, decimal, int}
use activex_endpoint.Text.Decimal.{NoColon, int-decimal, decimal-NoColon}
use activex_endpoint.Storage.Key.{StorageKey, parsed, to_str, split_colon, from_str}

split_colon-NoColon : (s : String) → NoColon s → split_colon s ≡ (s, [])
unfolding split_colon
split_colon-NoColon String.[] h = refl
split_colon-NoColon (String.◌∷◌ c s) h = ground (arith, split_colon-NoColon s h.1)

split_colon-concat :
    (s t : String)
    → NoColon s
    → split_colon (concat s (concat ":" t)) ≡ (s, (split_colon t).0 ∷ (split_colon t).1)
unfolding split_colon concat
split_colon-concat String.[] t h = refl
split_colon-concat (String.◌∷◌ c s) t h = ground (arith, split_colon-concat s t h.1)

abbrev pub IsPlainAlias : Option ℕ → Option String → Type 0
IsPlainAlias version none = Unit
IsPlainAlias none (some alias) = NoColon alias × (int alias ≡ none)
IsPlainAlias (some version) (some alias) = NoColon alias

from_str-id_version_alias :
    (id : String) (version : Option ℕ) (alias : Option String)
    → NoColon id
    → IsPlainAlias version alias
    → let k : StorageKey = record { id = id; version = version; alias = alias } in
      from_str (to_str k) ≡ parsed k
unfolding from_str to_str
from_str-id_version_alias id none none h a = ground (arith, split_colon-NoColon id h)
from_str-id_version_alias id none (some alias) h a =
    ground (arith, split_colon-concat id alias h, split_colon-NoColon alias a.0)
from_str-id_version_alias id (some version) none h a = ground (
  arith,
  split_colon-concat id (decimal version) h,
  split_colon-NoColon (decimal version) (decimal-NoColon version),
  int-decimal version,
)
from_str-id_version_alias id (some version) (some alias) h a = ground (
  arith,
  split_colon-concat id (concat (decimal version) (concat ":" alias)) h,
  split_colon-concat (decimal version) alias (decimal-NoColon version),
  split_colon-NoColon alias a,
  int-decimal version,
)

-- A key whose parts have no colon, and whose alias does not read as a number where there is no
-- version, comes back from its string.
pub from_str-to_str :
    (k : StorageKey)
    → NoColon k.id
    → IsPlainAlias k.version k.alias
    → from_str (to_str k) ≡ parsed k
from_str-to_str k h a = from_str-id_version_alias k.id k.version k.alias h a
