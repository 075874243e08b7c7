-- ===== src/Functions/Codec/RoundTrip.antt =====
-- A params schema and a runtime spec of the function registry, written out and read back.
use activex_endpoint.Prelude.{
  ℕ, String, ◌≡◌, refl, ap, Option, none, some, List, [], ◌∷◌, map, string_eq,
}
use activex_endpoint.Prelude.Dict.{Dict}
use activex_endpoint.Text.Decimal.{to_version-decimal}
use activex_endpoint.Functions.Params.{
  Json, null, boolean, number, string, array, object, field_of, ParamSpec,
}
use activex_endpoint.Functions.Registry.{RuntimeSpec}
use activex_endpoint.Functions.Codec.{
  to_nat, to_string, to_optional, to_strings, to_entries, number_of, or_null, string_items,
  string_fields, not_null, param_to_dict, param_from_dict, specs_to_items, parse_items,
  spec_to_dict, spec_from_dict,
}

-- A spec as it comes back: a default of null is none.
abbrev pub canonical : ParamSpec → ParamSpec
canonical p = record p { default = not_null p.default }

not_null-or_null : (o : Option Json) → not_null (some (or_null (λ v. v) o)) ≡ not_null o
not_null-or_null none = refl
not_null-or_null (some v) = refl

param_from_dict-param_to_dict :
    (p : ParamSpec) → param_from_dict (param_to_dict p) ≡ some (canonical p)
unfolding param_from_dict param_to_dict field_of
param_from_dict-param_to_dict p = rw (not_null-or_null p.default)

pub parse_items-specs_to_items :
    (ps : List ParamSpec) → parse_items (specs_to_items ps) ≡ some (map canonical ps)
unfolding parse_items specs_to_items
parse_items-specs_to_items [] = refl
parse_items-specs_to_items (p ∷ ps) =
    rw (param_from_dict-param_to_dict p, parse_items-specs_to_items ps)

pub canonical-canonical : (p : ParamSpec) → canonical (canonical p) ≡ canonical p
canonical-canonical p = ap (λ d. record p { default = d }) (not_null-not_null p.default)
  where
    not_null-not_null : (o : Option Json) → not_null (not_null o) ≡ not_null o
    not_null-not_null none = refl
    not_null-not_null (some null) = refl
    not_null-not_null (some (boolean b)) = refl
    not_null-not_null (some (number n)) = refl
    not_null-not_null (some (string s)) = refl
    not_null-not_null (some (array vs)) = refl
    not_null-not_null (some (object fs)) = refl

pub to_strings-string_items : (ss : List String) → to_strings (string_items ss) ≡ some ss
to_strings-string_items [] = refl
to_strings-string_items (s ∷ ss) = rw (to_strings-string_items ss)

to_entries-string_fields : (d : Dict String String) → to_entries (string_fields d) ≡ some d
to_entries-string_fields [] = refl
to_entries-string_fields ((k, s) ∷ d) = rw (to_entries-string_fields d)

optional_nat : (o : Option ℕ) → to_optional to_nat (or_null number_of o) ≡ some o
optional_nat none = refl
optional_nat (some n) = rw (to_version-decimal n)

optional_string : (o : Option String) → to_optional to_string (or_null (λ s. string s) o) ≡ some o
optional_string none = refl
optional_string (some s) = refl

pub spec_from_dict-spec_to_dict : (r : RuntimeSpec) → spec_from_dict (spec_to_dict r) ≡ some r
unfolding spec_from_dict spec_to_dict field_of
spec_from_dict-spec_to_dict r = rw (
  optional_nat r.memory_limit_bytes,
  optional_nat r.cpu_limit,
  to_strings-string_items r.requirements,
  optional_string r.image,
  to_entries-string_fields r.env_vars,
  to_version-decimal r.idle_ttl_seconds,
  to_version-decimal r.max_invocations,
  to_version-decimal r.max_concurrency,
  to_version-decimal r.max_duration_seconds,
  to_version-decimal r.max_retries,
)
