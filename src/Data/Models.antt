-- ===== src/Data/Models.antt =====
-- axo_endpoint/core/data/models.py, with the two services that the data registry is built on: the
-- backend that holds chunk bytes, and `hashlib`. Times are ticks.
use activex_endpoint.Prelude.{ℕ, zero, suc, ◌+◌, ◌-◌, String, Bool, Option, List}
use activex_endpoint.Prelude.Outcome.{Result}
use activex_endpoint.Text.{concat, decimal}

abbrev pub Bytes : Type 0
Bytes = List ℕ

pub record DataRecord : Type 0 where
  pub name : String
  pub version : ℕ
  pub alias : String
  pub format : String
  pub kind : String
  pub total_size : ℕ
  pub chunk_bytes : ℕ
  pub total_chunks : ℕ
  pub created_at : ℕ
  pub declared_hash : Option String
  pub content_hash_algo : String

-- `progress_ratio` is the float `length present_chunk_indices / total_chunks`, and is left out.
pub record DataStatus : Type 0 where
  pub registered : Bool
  pub name : String
  pub version : ℕ
  pub format : String
  pub kind : String
  pub total_size : ℕ
  pub chunk_bytes : ℕ
  pub total_chunks : ℕ
  pub present_chunk_indices : List ℕ
  pub complete : Bool
  pub declared_hash : Option String
  pub computed_hash : Option String
  pub hash_verified : Option Bool

-- `StorageBackend[FsKey, bytes]`, as far as the registry calls it.
pub record BlobBackend : Type 1 where
  pub Store : Type 0
  pub Error : Type 0
  pub put : Store → String → Bytes → Store × Result Error (Unit {0})
  pub get : Store → String → Result Error (Option Bytes)
  pub delete : Store → String → Store × Result Error (Unit {0})
  pub exists : Store → String → Result Error Bool

-- `hashlib.new(algo)`, `update`, `hexdigest`
pub record HashLib : Type 1 where
  pub State : Type 0
  pub new : String → State
  pub update : State → Bytes → State
  pub hexdigest : State → String

string_length : String → ℕ
string_length String.[] = 0
string_length (String.◌∷◌ c s) = string_length s + 1

zeros : ℕ → String → String
zeros zero s = s
zeros (suc n) s = String.◌∷◌ "0" (zeros n s)

-- `f"{n:08d}"`
unfoldable pub padded : ℕ → String
unfolding string_length zeros
padded n = let s = decimal n in zeros (8 - string_length s) s

-- `chunk_key` of chunking.py, for the kind "fs", whose keys are their strings.
unfoldable pub chunk_key : String → ℕ → ℕ → String
unfolding padded
chunk_key name version index =
    concat name (concat "/" (concat (decimal version) (concat "/chunk_" (padded index))))
