-- ===== src/Data/Requests/Refs.antt =====
-- The references of axo_endpoint/core/dataio/ref.py, and what axo_endpoint/core/dataio/protocol.py
-- reads out of a location and out of a payload.
use Prim.Native.Char.{code}
use activex_endpoint.Prelude.{
  ℕ, String, true, false, Option, none, some, [], ◌∷◌, nat_beq, if◌then◌else◌, string_eq,
}
use activex_endpoint.Text.{to_version}
use activex_endpoint.Functions.Params.{Json, boolean, number, string, object, field_of}
use activex_endpoint.Data.Models.{Bytes}
use activex_endpoint.Consensus.Sync.{WireLib}

pub record IoRef : Type 0 where
  pub kind : String
  pub location : String
  pub format : String
  pub chunk_index : Option ℕ

pub data DataIoError : Type 0 where
  backend_error not_found unknown_op unknown_ref_kind : DataIoError
  -- the exceptions that the functions let through
  raised : DataIoError

-- `s.rpartition("/")`: the parts around the last slash, or `none` where there is no slash.
unfoldable pub rpartition_slash : String → Option (String × String)
rpartition_slash String.[] = none
rpartition_slash (String.◌∷◌ c s) = elim (rpartition_slash s) [
  | some (before, after) ↦ some (String.◌∷◌ c before, after)
  | none ↦ if nat_beq (code c) b'/' then some (String.[], s) else none
]

abbrev with_name : String → Option ℕ → Option (String × ℕ)
with_name name none = none
with_name String.[] (some version) = none
with_name (String.◌∷◌ c s) (some version) = some (String.◌∷◌ c s, version)

abbrev parse_parts : Option (String × String) → Option (String × ℕ)
parse_parts none = none
parse_parts (some (name, version_str)) = with_name name (to_version version_str)

-- `_parse_registered_ref`; `int` is `isdigit` and `int` on decimal digits.
unfoldable pub parse_registered_ref : String → Option (String × ℕ)
unfolding rpartition_slash
parse_registered_ref location = parse_parts (rpartition_slash location)

abbrev pub default_chunk_bytes : ℕ
default_chunk_bytes = 262144

abbrev or_default : Option ℕ → ℕ
or_default none = default_chunk_bytes
or_default (some n) = n

-- `int(v)`, with the default for its exceptions.
abbrev int_or_default : Option Json → ℕ
int_or_default (some (number n)) = or_default (to_version n)
int_or_default (some (string s)) = or_default (to_version s)
int_or_default (some (boolean true)) = 1
int_or_default (some (boolean false)) = 0
int_or_default v = default_chunk_bytes

-- `none` where the document is no object, and has no `get`.
abbrev chunk_bytes_in : Option Json → Option ℕ
chunk_bytes_in none = some default_chunk_bytes
chunk_bytes_in (some (object fs)) = some (int_or_default (field_of fs "chunk_bytes"))
chunk_bytes_in (some v) = none

unfoldable pub chunk_bytes_of : WireLib → Bytes → Option ℕ
unfolding field_of
chunk_bytes_of w [] = some default_chunk_bytes
chunk_bytes_of w (x ∷ bytes) = chunk_bytes_in (w.loads (x ∷ bytes))

-- `str(n).encode("utf-8")`, for decimal digits.
unfoldable pub codes : String → Bytes
codes String.[] = []
codes (String.◌∷◌ c s) = code c ∷ codes s
