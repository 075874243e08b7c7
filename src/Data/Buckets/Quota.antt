-- ===== src/Data/Buckets/Quota.antt =====
-- The bytes in a bucket under the register handler of data_register.py and its quota check.
use Prim.Native.Char.{Char, code}
use activex_endpoint.Prelude.{
  ℕ, ◌+◌, String, Bool, true, false, ◌&&◌, Option, List, [], ◌∷◌, nat_beq, if◌then◌else◌,
}
use activex_endpoint.Data.Models.{DataRecord}
use activex_endpoint.Data.Buckets.{DataBucket, bucket_of, has_slash, handle_register}

unfoldable pub same_text : String → String → Bool
same_text String.[] String.[] = true
same_text (String.◌∷◌ x s) (String.◌∷◌ y t) = nat_beq (code x) (code y) && same_text s t
same_text s t = false

-- The name is of the form `bucket/key`.
unfoldable pub is_in : String → String → Bool
is_in bucket name = has_slash name && same_text (bucket_of name) bucket

-- The bytes of the records that are in the bucket.
unfoldable pub total_in : String → List DataRecord → ℕ
total_in bucket [] = 0
total_in bucket (r ∷ rs) = (if is_in bucket r.name then r.total_size else 0) + total_in bucket rs

-- The requests that the handler takes one after the other, each with whether its write goes through.
unfoldable pub handle_all :
    (String → Option DataBucket) → List DataRecord → List (DataRecord × Bool) → List DataRecord
handle_all buckets records [] = records
handle_all buckets records ((r, is_written) ∷ requests) =
    handle_all buckets (handle_register buckets records r is_written) requests
