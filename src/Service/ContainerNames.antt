-- ===== src/Service/ContainerNames.antt =====
-- sanitize_container_name of axo_endpoint/service/container/handle.py.
pub mod Apart
use Prim.Native.Char.{Char, code}
use Prim.Native.String
use activex_endpoint.Prelude.{
  ℕ, zero, ◌-◌, String, Bool, ◌&&◌, ◌||◌, ltb, leb, nat_beq, if◌then◌else◌,
}
use activex_endpoint.Text.{char_or, concat, decimal, len, prefix}

abbrev between : ℕ → ℕ → ℕ → Bool
between low n high = leb low n && leb n high

abbrev stays : ℕ → Bool
stays n = between b'a' n b'z' || between b'0' n b'9' || nat_beq n b'-'

-- What `lower`, `replace("_", "-")` and `re.sub` leave of a character, in front of `rest`. Of the
-- characters outside ASCII, two have a lower case with a letter in it: the Kelvin sign and the
-- capital I with a dot.
unfoldable pub clean_char : Char → String → String
unfolding char_or
clean_char c rest =
    let n = code c in
    if between b'A' n b'Z'
    then String.◌∷◌ (char_or "abcdefghijklmnopqrstuvwxyz" (n - b'A') "a") rest
    else if stays n
    then String.◌∷◌ c rest
    else if nat_beq n b'_'
    then String.◌∷◌ "-" rest
    else if nat_beq n 8490
    then String.◌∷◌ "k" rest
    else if nat_beq n 304
    then String.◌∷◌ "i" rest
    else rest

unfoldable pub clean : String → String
unfolding clean_char
clean String.[] = String.[]
clean (String.◌∷◌ c s) = clean_char c (clean s)

-- `slug.lstrip("-")`
unfoldable pub strip_left : String → String
strip_left String.[] = String.[]
strip_left (String.◌∷◌ c s) =
    let rest = strip_left s in if nat_beq (code c) b'-' then rest else String.◌∷◌ c s

unfoldable pub keep_dash : Char → String → String
keep_dash c String.[] = if nat_beq (code c) b'-' then String.[] else String.◌∷◌ c String.[]
keep_dash c (String.◌∷◌ d s) = String.◌∷◌ c (String.◌∷◌ d s)

-- `slug.rstrip("-")`
unfoldable pub strip_right : String → String
unfolding keep_dash
strip_right String.[] = String.[]
strip_right (String.◌∷◌ c s) = keep_dash c (strip_right s)

-- `slug or "fn"`
unfoldable pub or_fn : String → String
or_fn String.[] = "fn"
or_fn (String.◌∷◌ c s) = String.◌∷◌ c s

unfoldable pub suffix : ℕ → ℕ → String
unfolding concat decimal
suffix version pool_index =
    let named = concat "-v" (decimal version) in
    if ltb 0 pool_index then concat named (concat "-p" (decimal pool_index)) else named

-- `slug[:63 - len("fn-") - len(suffix)]`; a negative bound counts from the end.
unfoldable pub cut : String → String → String
unfolding prefix len
cut slug end =
    if leb (len end) 60 then prefix (60 - len end) slug else prefix (len slug - (len end - 60)) slug

unfoldable pub sanitize_container_name : String → ℕ → ℕ → String
unfolding concat clean strip_left strip_right or_fn suffix cut
sanitize_container_name function_id version pool_index =
    let slug = or_fn (strip_right (strip_left (clean function_id))) in
    let end = suffix version pool_index in concat "fn-" (concat (cut slug end) end)
