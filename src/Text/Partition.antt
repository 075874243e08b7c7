-- ===== src/Text/Partition.antt =====
-- Splitting a joined key at its last separator.
use Prim.Native.Char.{Char, code}
use activex_endpoint.Prelude.{ℕ, String, ◌≡◌, refl, none, some, arith}
use activex_endpoint.Text.{concat, rpartition_at, rpartition_colon, rpartition_colons}
use activex_endpoint.Text.Decimal.{Lacks, NoColon}

rpartition_at-Lacks : (n : ℕ) (s : String) → Lacks n s → rpartition_at n s ≡ none
unfolding rpartition_at
rpartition_at-Lacks n String.[] h = refl
rpartition_at-Lacks n (String.◌∷◌ c s) h = ground (arith, rpartition_at-Lacks n s h.1)

pub rpartition_at-concat :
    (c : Char) (s t : String)
    → Lacks (code c) t
    → rpartition_at (code c) (concat s (String.◌∷◌ c t)) ≡ some (s, t)
unfolding rpartition_at concat
rpartition_at-concat c String.[] t h = ground (arith, rpartition_at-Lacks (code c) t h)
rpartition_at-concat c (String.◌∷◌ d s) t h = ground (arith, rpartition_at-concat c s t h)

rpartition_colons-NoColon : (s : String) → NoColon s → rpartition_colons s ≡ none
unfolding rpartition_colons
rpartition_colons-NoColon String.[] h = refl
rpartition_colons-NoColon (String.◌∷◌ c s) h = ground (arith, rpartition_colons-NoColon s h.1)

pub rpartition_colon-concat :
    (s t : String) → NoColon t → rpartition_colon (concat s (concat ":" t)) ≡ some (s, t)
unfolding concat
rpartition_colon-concat s t h = rpartition_at-concat ":" s t h

pub rpartition_colons-concat :
    (s t : String) → NoColon t → rpartition_colons (concat s (concat "::" t)) ≡ some (s, t)
unfolding rpartition_colons concat
rpartition_colons-concat String.[] String.[] h = refl
rpartition_colons-concat String.[] (String.◌∷◌ d t) h =
    ground (arith, rpartition_colons-NoColon t h.1)
rpartition_colons-concat (String.◌∷◌ c s) t h = ground (arith, rpartition_colons-concat s t h)
