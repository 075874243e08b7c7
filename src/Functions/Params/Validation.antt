-- ===== src/Functions/Params/Validation.antt =====
-- What validated params are, for params_validation.py.
use activex_endpoint.Prelude.{
  String, ◌≡◌, refl, sym, ap, true, false, not, Option, none, some, List, [], ◌∷◌, map, filter,
  is_empty, arith, string_eq, Bool-cases, Option-cases, ◌⊎◌, inl, inr, All,
}
use activex_endpoint.Prelude.Dict
use activex_endpoint.Prelude.Dict.{Dict, keys}
use activex_endpoint.Prelude.Sets.{contains, contains-filter}
use activex_endpoint.Prelude.Order.{string_ord, contains-sorted_set}
use activex_endpoint.Prelude.Outcome.{ok}
use activex_endpoint.Functions.Params.{
  Json, ParamSpec, type_matches, fill, unknown, validate_and_fill_params,
}

abbrev pub names : List ParamSpec → List String
names schema = map (λ (s : ParamSpec). s.name) schema

-- The filled value of one field.
value_for : Dict String Json → ParamSpec → Option Json
value_for params spec = elim (Dict.get params spec.name) [ none ↦ spec.default | some v ↦ some v ]

-- What the field's declaration asks of the params.
pub record Accepts (params : Dict String Json) (spec : ParamSpec) : Type 0 where
  pub typed : (v : Json) → Dict.get params spec.name ≡ some v → type_matches v spec.type ≡ true
  pub present :
      Dict.get params spec.name ≡ none → spec.required ≡ true → (v : Json) × (spec.default ≡ some v)

-- One round of the loop that goes on.
fill-step :
    (spec : ParamSpec) (schema : List ParamSpec) (params : Dict String Json)
    (filled : Dict String (Option Json)) {out : Dict String (Option Json)}
    → fill (spec ∷ schema) params filled ≡ ok out
    → (fill schema params (Dict.put filled spec.name (value_for params spec)) ≡ ok out)
      × Accepts params spec
unfolding fill value_for
fill-step spec schema params filled h = elim (Option-cases (Dict.get params spec.name)) [
  | inl absent ↦ (
    ground arith,
    record {
      typed = λ v e. absurd (ground arith);
      present = λ e r. elim (Option-cases spec.default) [
        | inl lacks ↦ absurd (ground arith)
        | inr (v, has) ↦ (v, has)
      ];
    },
  )
  | inr (v, there) ↦
      (ground arith, record { typed = λ w e. ground arith; present = λ e r. absurd (ground arith) })
]

fill-Accepts :
    (schema : List ParamSpec) (params : Dict String Json) (filled : Dict String (Option Json))
    {out : Dict String (Option Json)}
    → fill schema params filled ≡ ok out
    → All (Accepts params) schema
fill-Accepts [] params filled h = tt
fill-Accepts (spec ∷ schema) params filled h =
    let (rest, here) = fill-step spec schema params filled h in
    (here, fill-Accepts schema params _ rest)

fill-end :
    (params : Dict String Json) (filled : Dict String (Option Json))
    {out : Dict String (Option Json)}
    → fill [] params filled ≡ ok out
    → filled ≡ out
unfolding fill
fill-end params filled h = ground arith

member-keys :
    (d : Dict String Json) (k : String) (v : Json)
    → Dict.get d k ≡ some v
    → contains (keys d) k ≡ true
unfolding Dict.get contains
member-keys [] k v h = absurd (ground arith)
member-keys ((j, w) ∷ d) k v h = ground (arith, member-keys d k v)

not-member : (xs : List String) (k : String) → is_empty xs ≡ true → contains xs k ≡ false
unfolding contains
not-member [] k h = refl
not-member (x ∷ xs) k h = absurd (ground arith)

declared :
    (schema : List ParamSpec) (params : Dict String Json)
    → is_empty (unknown schema params) ≡ true
    → (k : String) (v : Json) → Dict.get params k ≡ some v
    → contains (names schema) k ≡ true
unfolding unknown
declared schema params h k v given =
    let test = λ (j : String). not (contains (names schema) j) in
    ground (
      arith,
      not-member (unknown schema params) k h,
      contains-sorted_set (filter test (keys params)) k,
      contains-filter test (keys params) k,
      member-keys params k v given,
    )

fill-keeps :
    (schema : List ParamSpec) (params : Dict String Json) (filled : Dict String (Option Json))
    {out : Dict String (Option Json)} (k : String) (v : Json)
    → fill schema params filled ≡ ok out
    → Dict.get params k ≡ some v
    → (contains (names schema) k ≡ true) ⊎ (Dict.get filled k ≡ some (some v))
    → Dict.get out k ≡ some (some v)
unfolding contains value_for
fill-keeps [] params filled k v h given (inl m) = absurd (ground arith)
fill-keeps [] params filled {out} k v h given (inr there) =
    let same : filled ≡ out = fill-end params filled h in rw (sym same) there
fill-keeps (spec ∷ schema) params filled k v h given at =
    let (rest, _) = fill-step spec schema params filled h in
    fill-keeps schema params _ k v rest given (
      ground (
        arith,
        at,
        given,
        Dict.get-put filled spec.name k (value_for params spec),
        string_eq.beq_iff spec.name k,
        ap (λ j. Dict.get params j),
      ))

-- Params that are accepted are all declared, have the types that are declared, keep their values,
-- and leave out only fields that are optional or have a default.
pub validate_and_fill_params-Accepts :
    (schema : List ParamSpec) (params : Dict String Json) {out : Dict String (Option Json)}
    → validate_and_fill_params schema params ≡ ok out
    → All (Accepts params) schema
      × ((k : String) (v : Json)
          → Dict.get params k ≡ some v
          → (contains (names schema) k ≡ true) × (Dict.get out k ≡ some (some v)))
unfolding validate_and_fill_params
validate_and_fill_params-Accepts schema params {out} h =
    elim (Bool-cases (is_empty (unknown schema params))) [
      | inl none_unknown ↦
          let filled : fill schema params [] ≡ ok out = ground arith in
          (
            fill-Accepts schema params [] filled,
            λ k v given.
                let known = declared schema params none_unknown k v given in
                (known, fill-keeps schema params [] k v filled given (inl known)),
          )
      | inr some_unknown ↦ absurd (ground arith)
    ]
