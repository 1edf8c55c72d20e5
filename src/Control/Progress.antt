-- ===== src/Control/Progress.antt =====
-- What nrm_control_europar21_events2progress computes.
use libnrm.Prelude.{
  bind_some, ℕ, zero, suc, ◌+◌, ◌-◌, ◌/◌, ◌%◌, ◌<◌, ◌≡◌, refl, sym, ap, ◌∙◌, some, List, [], ◌∷◌,
  ◌++◌, length, length-append, Bool-cases, inl, inr, ◌==◌, arith, subst,
}
use mathlib.Core.List.{Perm, append_assoc, append-nil}
use mathlib.Core.List.Perm
use mathlib.Core.List
use libnrm.Ext.Utarray.{Utarray, Memory}
use libnrm.Ext.Qsort.{Qsort}
use libnrm.Ext.Doubles.{Doubles}
use libnrm.Ext.Arithmetic.{Arithmetic}
use libnrm.Time.{diff}
use libnrm.Timeserie.{Event}
use libnrm.Vector
use libnrm.Vector.{Vector, Ptr}
use libnrm.Vector.Laws.{list_of, at_head, get_lem, append_one_lem, create_lem}
use libnrm.Vector.Sorting.{sort_doubles, IsAscending}
use libnrm.Control.{frequency, push_frequencies, read, median, events2progress}

module _ (ua : Utarray) (fp : Doubles) (ar : Arithmetic fp) where
  -- The frequencies of events that follow one another: the value of each over the seconds since the
  -- one before it.
  pub frequencies : Event fp.Double → List (Event fp.Double) → List fp.Double
  frequencies e [] = []
  frequencies e (e' ∷ es) =
      ar.div e'.value (ar.mul (ar.of_int (diff e.time e'.time)) ar.nano) ∷ frequencies e' es

  read_lem :
      {A : Type 0} (v : Vector ua A) (xs ys : List A) (x : A) (j : ℕ)
      → list_of ua v ≡ xs ++ x ∷ ys
      → j ≡ length xs
      → read ua fp ar v j ≡ some x
  unfolding read
  read_lem v xs ys x j h k =
      bind_some (ap (λ r. r.1) (get_lem ua v j x (at_head ua v xs ys x j h k))) _

  push_lem :
      (m : Memory ua) (v : Vector ua (Event fp.Double)) (es done : List (Event fp.Double)) (j : ℕ)
      (e : Event fp.Double) (d : Vector ua fp.Double)
      → list_of ua v ≡ done ++ es
      → j ≡ length done
      → (d' : Vector ua fp.Double) × (push_frequencies ua fp ar (length es) j v e d ≡ some d')
        × (list_of ua d' ≡ list_of ua d ++ frequencies e es)
  unfolding push_frequencies frequencies frequency
  push_lem m v [] done j e d h k = (d, refl, sym (append-nil (list_of ua d)))
  push_lem m v (e' ∷ es) done j e d h k =
      let f = frequency ua fp ar e e' in
      let (d', pushed, has) =
        push_lem m v es (done ++ e' ∷ []) (j + 1) e' (Vector.append_one ua d f).1
          (h ∙ sym (append_assoc done (e' ∷ []) es))
          (omega (arith, k, length-append done (e' ∷ []))) in
      (
        d',
        bind_some (ap (λ r. r.1) (get_lem ua v j e' (at_head ua v done es e' j h k))) _ ∙ pushed,
        has
            ∙ ap (λ l. l ++ frequencies e' es) (append_one_lem ua d m f).1
            ∙ append_assoc (list_of ua d) (f ∷ []) (frequencies e' es),
      )

  length-frequencies :
      (e : Event fp.Double) (es : List (Event fp.Double)) → length (frequencies e es) ≡ length es
  unfolding frequencies
  length-frequencies e [] = refl
  length-frequencies e (e' ∷ es) = omega (arith, length-frequencies e' es)

-- Lists of one library length have one length here too.
same_length : {A : Type 0} (l k : List A) → List.length l ≡ List.length k → length l ≡ length k
same_length [] [] e = refl
same_length [] (b ∷ k) e = absurd (cc e)
same_length (a ∷ l) [] e = absurd (cc e)
same_length (a ∷ l) (b ∷ k) e = ap suc (same_length l k (cc e))

-- A list split before a position.
split_at :
    {A : Type 0} (l : List A) (j : ℕ)
    → j < length l
    → (xs : List A) × (x : A) × (ys : List A) × (l ≡ xs ++ x ∷ ys) × (length xs ≡ j)
split_at [] j h = absurd (omega (arith, h))
split_at (a ∷ l) zero h = ([], a, l, refl, refl)
split_at (a ∷ l) (suc j) h =
    let (xs, x, ys, e, k) = split_at l j (omega (arith, h)) in
    (a ∷ xs, x, ys, ap (λ r. a ∷ r) e, ap suc k)

-- The median of a list in order: the element with as many before it as after it, or the mean of two
-- neighbours of that kind.
pub data IsMedian (fp : Doubles) (ar : Arithmetic fp) : List fp.Double → fp.Double → Type 0 where
  odd_median :
      (xs ys : List fp.Double) (x : fp.Double)
      → length xs ≡ length ys
      → IsMedian fp ar (xs ++ x ∷ ys) x
  even_median :
      (xs ys : List fp.Double) (x y : fp.Double)
      → length xs ≡ length ys
      → IsMedian fp ar (xs ++ x ∷ y ∷ ys) (ar.div (ar.add x y) ar.two)

module _ (ua : Utarray) (fp : Doubles) (ar : Arithmetic fp) where
  odd_case :
      (n : ℕ) (v : Vector ua fp.Double)
      → length (list_of ua v) ≡ n
      → n % 2 ≡ 1
      → (r : fp.Double) × (read ua fp ar v (n / 2) ≡ some r) × IsMedian fp ar (list_of ua v) r
  odd_case n v sized odd =
      let (xs, x, ys, e, k) = split_at (list_of ua v) (n / 2) (omega (arith, sized, odd)) in
      (
        x,
        read_lem ua fp ar v xs ys x (n / 2) e (sym k),
        subst (λ l. IsMedian fp ar l x) (sym e)
            (odd_median xs ys x
              (omega (arith, sized, odd, k, ap length e, length-append xs (x ∷ ys)))),
      )

  -- Two neighbours in the middle.
  abbrev Pair : ℕ → Vector ua fp.Double → Type 0
  Pair n v =
      (x : fp.Double) × (y : fp.Double) × (read ua fp ar v (n / 2 - 1) ≡ some x)
      × (read ua fp ar v (n / 2) ≡ some y)
      × IsMedian fp ar (list_of ua v) (ar.div (ar.add x y) ar.two)

  even_case :
      (n : ℕ) (v : Vector ua fp.Double) → length (list_of ua v) ≡ n → 0 < n → n % 2 ≡ 0 → Pair n v
  even_case n v sized nonzero even =
      let (xs, x, rest, e, k) =
        split_at (list_of ua v) (n / 2 - 1) (omega (arith, sized, nonzero, even)) in
      by_rest xs x rest e k
    where
      by_rest :
          (xs : List fp.Double) (x : fp.Double) (rest : List fp.Double)
          → list_of ua v ≡ xs ++ x ∷ rest
          → length xs ≡ n / 2 - 1
          → Pair n v
      by_rest xs x [] e k =
          absurd (omega (arith, sized, nonzero, even, k, ap length e, length-append xs (x ∷ [])))
      by_rest xs x (y ∷ ys) e k = (
        x,
        y,
        read_lem ua fp ar v xs (y ∷ ys) x (n / 2 - 1) e (sym k),
        read_lem ua fp ar v (xs ++ x ∷ []) ys y (n / 2)
            (e ∙ sym (append_assoc xs (x ∷ []) (y ∷ ys)))
            (omega (arith, nonzero, even, k, length-append xs (x ∷ []))),
        subst (λ l. IsMedian fp ar l (ar.div (ar.add x y) ar.two)) (sym e)
            (even_median xs ys x y
              (omega (arith, sized, nonzero, even, k, ap length e, length-append xs (x ∷ y ∷ ys)))),
      )

  -- The choice of nrm_control_europar21_events2progress between the two cases.
  pub median_lem :
      (n : ℕ) (v : Vector ua fp.Double)
      → length (list_of ua v) ≡ n
      → 0 < n
      → (r : fp.Double) × (median ua fp ar n v ≡ some r) × IsMedian fp ar (list_of ua v) r
  unfolding median
  median_lem n v sized nonzero = elim (Bool-cases ((n % 2) == 1)) [
    | inl odd ↦
        let (r, found, is) = odd_case n v sized (ground (arith, odd)) in
        (r, rw (odd, median) found, is)
    | inr even ↦
        let (x, y, at_x, at_y, is) = even_case n v sized nonzero (ground (arith, even)) in
        (ar.div (ar.add x y) ar.two, rw (even, median) (bind_some at_x _ ∙ bind_some at_y _), is)
  ]

  -- nrm_control_europar21_events2progress, with memory left, on two events or more: it returns the
  -- median of the frequencies of the events, each the value of an event over the time since the one
  -- before it.
  pub events2progress_lem :
      (qs : Qsort ua) (m : Memory ua) (v : Vector ua (Event fp.Double)) (e e' : Event fp.Double)
      (es : List (Event fp.Double))
      → list_of ua v ≡ e ∷ e' ∷ es
      → (r : fp.Double) × (w : List fp.Double) × (events2progress ua fp ar qs v ≡ some r)
        × Perm w (frequencies ua fp ar e (e' ∷ es))
        × IsAscending fp w
        × IsMedian fp ar w r
  unfolding events2progress
  events2progress_lem qs m v e e' es h =
      let count : ua.len (Event fp.Double) v.array - 1 ≡ length (e' ∷ es) =
        omega (arith, ua.len-contents (Event fp.Double) v.array, ap length h) in
      let (diffs, made, empty) = create_lem ua m {A = fp.Double} in
      let (full, pushed, has) = push_lem ua fp ar m v (e' ∷ es) (e ∷ []) 1 e diffs h refl in
      let (sorted, done, same, up) = sort_doubles ua qs fp full in
      let all : list_of ua full ≡ frequencies ua fp ar e (e' ∷ es) =
        has ∙ ap (λ l. l ++ frequencies ua fp ar e (e' ∷ es)) empty in
      let mixed : Perm (list_of ua sorted) (frequencies ua fp ar e (e' ∷ es)) =
        subst (Perm (list_of ua sorted)) all same in
      let (r, middle, is) =
        median_lem (ua.len (Event fp.Double) v.array - 1) sorted
          (same_length _ _ (Perm.length-eq mixed)
            ∙ length-frequencies ua fp ar e (e' ∷ es)
            ∙ sym count)
          (omega (arith, count)) in
      (
        r,
        list_of ua sorted,
        bind_some (ap (λ c. c.1) made) _
            ∙ bind_some (read_lem ua fp ar v [] (e' ∷ es) e 0 h refl) _
            ∙ bind_some (ap (λ n. push_frequencies ua fp ar n 1 v e diffs) count ∙ pushed) _
            ∙ bind_some (ap (λ c. c.1) done) _
            ∙ middle,
        mixed,
        up,
        is,
      )
