-- ===== src/Hash/Laws.antt =====
-- utils/hashes.c as a map: what a search finds after an addition.
use libnrm.Prelude.{
  Bool, Option, ◌≡◌, refl, sym, ap, ◌∙◌, true, false, none, some, List, [], ◌∷◌, ◌++◌, map, arith,
  if◌then◌else◌, Bool-cases, inl, inr,
}
use libnrm.Prelude.Bytes.{Bytes}
use libnrm.Error.{success, failure}
use libnrm.Ext.Assoc.{lookup, lookup-append_one, lookup-modify}
use libnrm.Ext.Uthash.{Uthash}
use libnrm.Hash.{add, find, pointers}

module _ {K : Type 0} (uh : Uthash K) (V : Type 0) where
  -- HASH_FIND in a table with one more key.
  pub find-add :
      (t : uh.Table V) (k j : K) (v : V)
      → uh.find V t k ≡ none
      → uh.find V (uh.add V t k v) j ≡ (if uh.key.same k j then some v else uh.find V t j)
  find-add t k j v h =
      rw (uh.find-items V (uh.add V t k v) j, uh.items-add V t k v h, uh.find-items V t j)
        (lookup-append_one uh.key k j v (uh.items V t) (sym (uh.find-items V t k) ∙ h))

  -- HASH_FIND after a write through the pointer that a search returned.
  pub find-update :
      (t : uh.Table V) (k j : K) (f : V → V)
      → uh.find V (uh.update V t k f) j ≡ (
          if uh.key.same k j
          then elim (uh.find V t k) [ none ↦ none | some v ↦ some (f v) ]
          else uh.find V t j)
  find-update t k j f =
      rw
        (
          uh.find-items V (uh.update V t k f) j,
          uh.items-update V t k f,
          uh.find-items V t k,
          uh.find-items V t j,
        )
        (lookup-modify uh.key k j f (uh.items V t))

  pub find_null : (t : uh.Table V) (k : K) → uh.is_null V t ≡ true → uh.find V t k ≡ none
  find_null t k h =
      uh.find-items V t k ∙ ap (lookup uh.key k) ((uh.is_null_iff V t).0 h) ∙ unfold lookup in refl

  pub is_null-of_found :
      (t : uh.Table V) (k : K) (v : V) → uh.find V t k ≡ some v → uh.is_null V t ≡ false
  is_null-of_found t k v h = elim (Bool-cases (uh.is_null V t)) [
    | inl e ↦ ground (arith, find_null t k)
    | inr e ↦ e
  ]

module _ (uh : Uthash Bytes) {V : Type 0} where
  -- Whatever the table, nrm_hash_find on a key gives what HASH_FIND gives: a NULL table is one
  -- with no key, but for the code.
  pub found : (t : uh.Table V) (k : Bytes) → (find uh t (some k)).1 ≡ uh.find V t k
  unfolding find
  found t k = elim (Bool-cases (uh.is_null V t)) [
    | inl e ↦ ground (arith, find_null uh V t k)
    | inr e ↦ ground arith
  ]

  by_result :
      (t : uh.Table V) (k j : Bytes) (v : V) (o : Option V)
      → uh.find V t k ≡ o
      → ((add uh t k v).0 ≡ elim o [ none ↦ success | some w ↦ failure ])
        × ((find uh (add uh t k v).1 (some j)).1 ≡ (
            if uh.key.same k j
            then elim o [ none ↦ some v | some w ↦ some w ]
            else (find uh t (some j)).1))
  unfolding add
  by_result t k j v none e = (
    rw (e, add) refl,
    rw (e, add)
        (found (uh.add V t k v) j
          ∙ find-add uh V t k j v e
          ∙ ap (λ o. if uh.key.same k j then some v else o) (sym (found t j))),
  )
  by_result t k j v (some w) e =
      (rw (e, add) refl, rw (e, add) (found t j ∙ same (uh.key.same k j) refl))
    where
      same :
          (b : Bool)
          → uh.key.same k j ≡ b
          → uh.find V t j ≡ (if b then some w else (find uh t (some j)).1)
      same true h = ap (uh.find V t) (sym ((uh.key.same_iff k j).0 h)) ∙ e
      same false h = sym (found t j)

  -- nrm_hash_add and nrm_hash_find as a map, on any table and keys. A new key is added with
  -- NRM_SUCCESS and is found after that with its pointer; a key that is there already gives
  -- NRM_FAILURE, which hashes.h does not name, and is found with its old pointer; searches for other keys answer as before.
  pub find-add_lem :
      (t : uh.Table V) (k j : Bytes) (v : V)
      → ((add uh t k v).0 ≡ elim (find uh t (some k)).1 [ none ↦ success | some w ↦ failure ])
        × ((find uh (add uh t k v).1 (some j)).1 ≡ (
            if uh.key.same k j
            then elim (find uh t (some k)).1 [ none ↦ some v | some w ↦ some w ]
            else (find uh t (some j)).1))
  find-add_lem t k j v = by_result t k j v (find uh t (some k)).1 (sym (found t k))

  map-append_one :
      (l : List (Bytes × V)) (e : Bytes × V)
      → map (λ x. x.1) (l ++ e ∷ []) ≡ map (λ x. x.1) l ++ e.1 ∷ []
  map-append_one [] e = refl
  map-append_one (x ∷ l) e = ap (λ r. x.1 ∷ r) (map-append_one l e)

  -- A new key's pointer comes last in an iteration.
  pub pointers-add :
      (t : uh.Table V) (k : Bytes) (v : V)
      → uh.find V t k ≡ none
      → pointers uh (add uh t k v).1 ≡ pointers uh t ++ v ∷ []
  unfolding pointers add
  pointers-add t k v h =
      rw (h, add)
        (ap (map (λ x. x.1)) (uh.items-add V t k v h) ∙ map-append_one (uh.items V t) (k, v))
