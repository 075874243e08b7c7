-- ===== src/Choreography/Graph/Rounds.antt =====
-- One round of the wave loop: the ready nodes, and what is left when they are taken away.
use activex_endpoint.Prelude.{
  ◌≤◌, ◌<◌, String, ◌≡◌, refl, true, false, none, some, List, [], ◌∷◌, length, is_empty,
  if◌then◌else◌, arith, string_eq, Bool-cases, inl, inr,
}
use activex_endpoint.Prelude.Dict
use activex_endpoint.Prelude.Dict.{Dict, Distinct, keys}
use activex_endpoint.Prelude.Sets.{contains, subset}
use activex_endpoint.Prelude.Order.{string_ord}
use activex_endpoint.Choreography.Graph.{ready_nodes, remove_all}

abbrev pub Deps : Type 0
Deps = Dict String (List String)

length-pop-lt :
    (d : Deps) (k : String) (v : List String)
    → Dict.get d k ≡ some v
    → length (Dict.pop d k) < length d
unfolding Dict.pop Dict.get
length-pop-lt [] k v h = ground arith
length-pop-lt ((j, w) ∷ d) k v h = ground (arith, length-pop-lt d k v, Dict.length-pop-le d k)

pub ready_nodes_sound :
    (d : Deps) (done : List String) (k : String)
    → Distinct d
    → contains (ready_nodes d done) k ≡ true
    → (deps : List String) × (Dict.get d k ≡ some deps) × (subset deps done ≡ true)
unfolding ready_nodes contains Dict.get
ready_nodes_sound [] done k p h = absurd (ground arith)
ready_nodes_sound ((j, w) ∷ d) done k (fresh, p) h = elim (Bool-cases (string_eq.beq j k)) [
  | inl same ↦ elim (Bool-cases (subset w done)) [
    | inl ready ↦ (w, ground arith, ready)
    | inr waits ↦
        let (deps, got, _) = ready_nodes_sound d done k p (ground arith) in
        absurd (ground (arith, string_eq.beq_iff j k))
  ]
  | inr apart ↦
      let (deps, got, ready) = ready_nodes_sound d done k p (ground arith) in
      (deps, ground arith, ready)
]

pub get-remove_all :
    (ks : List String) (d : Deps) (k : String)
    → Dict.get (remove_all d ks) k ≡ (if contains ks k then none else Dict.get d k)
unfolding remove_all contains
get-remove_all [] d k = refl
get-remove_all (j ∷ ks) d k = ground (arith, get-remove_all ks (Dict.pop d j) k, Dict.get-pop d j k)

pub remove_all-Distinct : (ks : List String) (d : Deps) → Distinct d → Distinct (remove_all d ks)
unfolding remove_all
remove_all-Distinct [] d p = p
remove_all-Distinct (j ∷ ks) d p = remove_all-Distinct ks (Dict.pop d j) (Dict.pop-Distinct d j p)

length-remove_all-le : (ks : List String) (d : Deps) → length (remove_all d ks) ≤ length d
unfolding remove_all
length-remove_all-le [] d = ground arith
length-remove_all-le (j ∷ ks) d =
    omega (arith, length-remove_all-le ks (Dict.pop d j), Dict.length-pop-le d j)

-- A round that finds a ready node leaves fewer nodes.
pub length-remove_ready :
    (d : Deps) (done : List String)
    → Distinct d
    → is_empty (ready_nodes d done) ≡ false
    → length (remove_all d (ready_nodes d done)) < length d
unfolding remove_all contains
length-remove_ready d done p h = by_ready (ready_nodes d done) refl h
  where
    by_ready :
        (ks : List String)
        → ready_nodes d done ≡ ks
        → is_empty ks ≡ false
        → length (remove_all d ks) < length d
    by_ready [] e h = absurd (ground arith)
    by_ready (k ∷ ks) e h =
        let (deps, got, _) =
          ready_nodes_sound d done k p (rw e (ground (arith, string_eq.beq_iff k k))) in
        let shorter = length-pop-lt d k deps got in
        omega (arith, shorter, length-remove_all-le ks (Dict.pop d k))

pub unmet :
    (xs ys : List String)
    → subset xs ys ≡ false
    → (a : String) × (contains xs a ≡ true) × (contains ys a ≡ false)
unfolding subset contains
unmet [] ys h = absurd (ground arith)
unmet (x ∷ xs) ys h = elim (Bool-cases (contains ys x)) [
  | inl there ↦ let (a, m, out) = unmet xs ys (ground arith) in (a, ground arith, out)
  | inr out ↦ (x, ground (arith, string_eq.beq_iff x x), out)
]

-- Where no node is ready, no node has all its dependencies.
pub none_ready :
    (d : Deps) (done : List String) (k : String) (deps : List String)
    → is_empty (ready_nodes d done) ≡ true
    → Dict.get d k ≡ some deps
    → subset deps done ≡ false
unfolding ready_nodes Dict.get
none_ready [] done k deps h got = absurd (ground arith)
none_ready ((j, w) ∷ d) done k deps h got = ground (arith, none_ready d done k deps)

pub keys-get :
    (d : Deps) (k : String)
    → contains (keys d) k ≡ true
    → (deps : List String) × (Dict.get d k ≡ some deps)
unfolding Dict.get contains
keys-get [] k h = absurd (ground arith)
keys-get ((j, w) ∷ d) k h = elim (Bool-cases (string_eq.beq j k)) [
  | inl same ↦ (w, ground arith)
  | inr apart ↦ let (deps, got) = keys-get d k (ground arith) in (deps, ground arith)
]

pub get-none : (d : Deps) (k : String) → contains (keys d) k ≡ false → Dict.get d k ≡ none
unfolding Dict.get contains
get-none [] k h = refl
get-none ((j, w) ∷ d) k h = ground (arith, get-none d k)
