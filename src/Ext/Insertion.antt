-- ===== src/Ext/Insertion.antt =====
-- An instance of `Qsort`: insertion sort on lists.
use libnrm.Prelude.{
  ◌≡◌, inl, inr, Bool, true, false, not, List, [], ◌∷◌, arith, if◌then◌else◌, Bool-cases,
}
use libnrm.Prelude.Int.{ℤ, pos, ltb_ℤ}
use libnrm.Ext.Qsort.{Before, IsOrdering, AllAfter, IsSorted, Qsort}
use libnrm.Ext.Models.{list_array}
use mathlib.Core.List.{Perm}
use mathlib.Core.List.Perm

module _ {A : Type 0} (cmp : A → A → ℤ) where
  abbrev pub before : A → A → Bool
  before a b = not (ltb_ℤ (pos 0) (cmp a b))

  unfoldable pub insert : A → List A → List A
  insert a [] = a ∷ []
  insert a (b ∷ l) = if before a b then a ∷ b ∷ l else b ∷ insert a l

  unfoldable pub sort_list : List A → List A
  unfolding insert
  sort_list [] = []
  sort_list (a ∷ l) = insert a (sort_list l)

  insert-perm : (a : A) (l : List A) → Perm (insert a l) (a ∷ l)
  unfolding insert
  insert-perm a [] = Perm.refl (a ∷ [])
  insert-perm a (b ∷ l) = elim (Bool-cases (before a b)) [
    | inl e ↦ rw e (Perm.refl (a ∷ b ∷ l))
    | inr e ↦ rw e (Perm.trans (Perm.cons b (insert-perm a l)) (Perm.swap a b l))
  ]

  pub sort_list-perm : (l : List A) → Perm (sort_list l) l
  unfolding sort_list
  sort_list-perm [] = Perm.nil
  sort_list-perm (a ∷ l) = Perm.trans (insert-perm a (sort_list l)) (Perm.cons a (sort_list-perm l))

  before-true : (a b : A) → before a b ≡ true → Before cmp a b
  before-true a b h = ground arith

  before-false : (o : IsOrdering A cmp) (a b : A) → before a b ≡ false → Before cmp b a
  before-false o a b h = ground (arith, o.total a b)

  AllAfter-trans :
      (o : IsOrdering A cmp) (a b : A) (l : List A)
      → Before cmp a b
      → AllAfter cmp b l
      → AllAfter cmp a l
  AllAfter-trans o a b [] h v = tt
  AllAfter-trans o a b (c ∷ l) h v = (o.trans a b c h v.0, AllAfter-trans o a b l h v.1)

  AllAfter-insert :
      (b a : A) (l : List A) → Before cmp b a → AllAfter cmp b l → AllAfter cmp b (insert a l)
  unfolding insert
  AllAfter-insert b a [] h v = (h, tt)
  AllAfter-insert b a (c ∷ l) h v = elim (Bool-cases (before a c)) [
    | inl e ↦ rw e (h, v)
    | inr e ↦ rw e (v.0, AllAfter-insert b a l h v.1)
  ]

  insert-IsSorted :
      (o : IsOrdering A cmp) (a : A) (l : List A) → IsSorted cmp l → IsSorted cmp (insert a l)
  unfolding insert
  insert-IsSorted o a [] v = (tt, tt)
  insert-IsSorted o a (b ∷ l) v = elim (Bool-cases (before a b)) [
    | inl e ↦ rw e ((before-true a b e, AllAfter-trans o a b l (before-true a b e) v.0), v)
    | inr e ↦ rw e (AllAfter-insert b a l (before-false o a b e) v.0, insert-IsSorted o a l v.1)
  ]

  pub sort_list-IsSorted : (o : IsOrdering A cmp) (l : List A) → IsSorted cmp (sort_list l)
  unfolding sort_list
  sort_list-IsSorted o [] = tt
  sort_list-IsSorted o (a ∷ l) = insert-IsSorted o a (sort_list l) (sort_list-IsSorted o l)

abbrev pub insertion_sort : Qsort list_array
insertion_sort = record {
  sort = λ A cmp l. sort_list cmp l;
  sort-perm = λ A cmp l. sort_list-perm cmp l;
  sort-IsSorted = λ A cmp l o. sort_list-IsSorted cmp o l;
}
