-- ===== src/Ext/Assoc.antt =====
-- Association lists in order of insertion: what a uthash table shows of itself.
use libnrm.Prelude.{
  ◌≡◌, ◌↔◌, refl, Bool, true, Option, none, some, List, [], ◌∷◌, ◌++◌, arith, if◌then◌else◌,
}

-- A type of keys that are compared byte by byte.
pub record Key (K : Type 0) : Type 0 where
  pub same : K → K → Bool
  pub same_iff : (a b : K) → (same a b ≡ true) ↔ (a ≡ b)

module _ {K : Type 0} (key : Key K) {V : Type 0} where
  unfoldable pub lookup : K → List (K × V) → Option V
  lookup k [] = none
  lookup k ((j, v) ∷ l) = if key.same j k then some v else lookup k l

  -- The first entry of a key, changed.
  unfoldable pub modify : K → (V → V) → List (K × V) → List (K × V)
  modify k f [] = []
  modify k f ((j, v) ∷ l) = if key.same j k then (j, f v) ∷ l else (j, v) ∷ modify k f l

  -- The list less the first entry of a key.
  unfoldable pub without : K → List (K × V) → List (K × V)
  without k [] = []
  without k ((j, v) ∷ l) = if key.same j k then l else (j, v) ∷ without k l

  pub lookup-append_one :
      (k j : K) (v : V) (l : List (K × V))
      → lookup k l ≡ none
      → lookup j (l ++ (k, v) ∷ []) ≡ (if key.same k j then some v else lookup j l)
  unfolding lookup
  lookup-append_one k j v [] h = refl
  lookup-append_one k j v ((i, w) ∷ l) h =
      ground
        (arith, key.same_iff i k, key.same_iff k j, key.same_iff i j, lookup-append_one k j v l)

  pub lookup-modify :
      (k j : K) (f : V → V) (l : List (K × V))
      → lookup j (modify k f l) ≡ (
          if key.same k j
          then elim (lookup k l) [ none ↦ none | some v ↦ some (f v) ]
          else lookup j l)
  unfolding lookup modify
  lookup-modify k j f [] = ground arith
  lookup-modify k j f ((i, w) ∷ l) =
      ground (arith, key.same_iff i k, key.same_iff k j, key.same_iff i j, lookup-modify k j f l)
