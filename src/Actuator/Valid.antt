-- ===== src/Actuator/Valid.antt =====
-- An actuator corrects every value to one that it accepts.
use libnrm.Prelude.{
  ℕ, none, suc, ◌≡◌, refl, sym, ap, ◌∙◌, inl, inr, true, some, List, [], ◌∷◌, ◌++◌, arith,
  if◌then◌else◌, length, get_elem?, Bool-cases, subst,
}
use mathlib.Core.List.{append_assoc, append-nil, Perm}
use libnrm.Error.{ErrorCode, success}
use libnrm.Ext.Utarray.{Utarray, Memory}
use libnrm.Ext.Qsort.{Qsort}
use libnrm.Ext.Doubles.{Doubles, Le}
use libnrm.Vector
use libnrm.Vector.{Vector, Ptr}
use libnrm.Vector.Laws.{list_of, append_one_lem, elements_lem, copy_lem}
use libnrm.Vector.Sorting.{IsAscending, ascending, sort_double_cmp, sort_double_cmp-IsOrdering}
use libnrm.Actuator.{
  Actuator, Kind, discrete, continuous, clamp, within, nearest, choose, corrected_value,
  validate_value, push_all, refilled, set_choices, list_choices,
}
use libnrm.Actuator.Values.{
  In, last, last_nth, In-last, gap, NoneNearer, nearest_lem, is_choice_iff,
}

module _ (ua : Utarray) (fp : Doubles) where
  abbrev pub HasNear : fp.Double → List fp.Double → Type 0
  HasNear value [] = ⊥
  HasNear value (d ∷ ds) = fp.lt (gap ua fp value d) fp.dbl_max ≡ true

  -- Limits in order; or choices in ascending order, at least one of them, and the first near enough
  -- to `value` for the distance to be below DBL_MAX.
  abbrev pub IsReadyFor : fp.Double → Kind ua fp → Type 0
  IsReadyFor value (continuous min max) = Le fp min max
  IsReadyFor value (discrete v) = IsAscending fp (list_of ua v) × HasNear value (list_of ua v)

  clamp-within :
      (min max value : fp.Double)
      → Le fp min max
      → within ua fp min max (clamp ua fp min max value) ≡ success
  unfolding clamp within
  clamp-within min max value h = ground (arith, fp.lt_irrefl min, fp.lt_irrefl max)

  -- What the discrete correction returns, with the choices `d ∷ ds`.
  choose_lem :
      (v : Vector ua fp.Double) (d : fp.Double) (ds : List fp.Double) (value : fp.Double)
      → list_of ua v ≡ d ∷ ds
      → choose ua fp v value ≡ (
        success,
        if fp.lt value d
            then d
            else if fp.lt (last d ds) value
            then last d ds
            else nearest ua fp value (d ∷ ds) fp.dbl_max value,
      )
  unfolding choose nearest
  choose_lem v d ds value e = rw (count, first, end, elements_lem ua v, e, choose)
    where
      count : ua.len fp.Double v.array ≡ suc (length ds)
      count = ua.len-contents fp.Double v.array ∙ ap length e

      first : ua.eltptr fp.Double v.array 0 ≡ some d
      first = ua.eltptr-contents fp.Double v.array 0 ∙ ap (λ l. get_elem? l 0) e

      end : ua.eltptr fp.Double v.array (length ds) ≡ some (last d ds)
      end =
          ua.eltptr-contents fp.Double v.array (length ds)
          ∙ ap (λ l. get_elem? l (length ds)) e
          ∙ last_nth d ds

  first_step :
      (value d : fp.Double) (ds : List fp.Double)
      → HasNear value (d ∷ ds)
      → nearest ua fp value (d ∷ ds) fp.dbl_max value ≡ nearest ua fp value ds (gap ua fp value d) d
  unfolding nearest
  first_step value d ds h = rw (h, nearest)

  abbrev chosen : fp.Double → List fp.Double → fp.Double → fp.Double
  chosen d ds value =
      if fp.lt value d
      then d
      else if fp.lt (last d ds) value
      then last d ds
      else nearest ua fp value (d ∷ ds) fp.dbl_max value

  chosen-In :
      (value d : fp.Double) (ds : List fp.Double)
      → HasNear value (d ∷ ds)
      → In (chosen d ds value) (d ∷ ds)
  chosen-In value d ds h = elim (Bool-cases (fp.lt value d)) [
    | inl e ↦ subst (λ r. In r (d ∷ ds)) (sym (rw e refl)) (inl refl)
    | inr e ↦ elim (Bool-cases (fp.lt (last d ds) value)) [
      | inl k ↦ subst (λ r. In r (d ∷ ds)) (sym (rw (e, k) refl)) (In-last d ds)
      | inr k ↦
          subst (λ r. In r (d ∷ ds)) (sym (rw (e, k) (first_step value d ds h)))
            (nearest_lem ua fp value ds d).among
    ]
  ]

  abbrev IsGood : List fp.Double → ErrorCode × fp.Double → Type 0
  IsGood l r = (r.0 ≡ success) × In r.1 l

  -- A discrete correction succeeds and returns one of the choices.
  choose-In :
      (v : Vector ua fp.Double) (value : fp.Double) (l : List fp.Double)
      → list_of ua v ≡ l
      → HasNear value l
      → IsGood l (choose ua fp v value)
  choose-In v value [] e h = absurd h
  choose-In v value (d ∷ ds) e h =
      subst (IsGood (d ∷ ds)) (sym (choose_lem v d ds value e)) (refl, chosen-In value d ds h)

  by_kind :
      (a : Actuator ua fp) (value : fp.Double) (k : Kind ua fp)
      → a.kind ≡ k
      → IsReadyFor value k
      → ((corrected_value ua fp a value).0 ≡ success)
        × (validate_value ua fp a (corrected_value ua fp a value).1 ≡ success)
  unfolding corrected_value validate_value
  by_kind a value (continuous min max) e h = (
    ap (λ r. r.0) clamped,
    ap (λ r. validate_value ua fp a r.1) clamped
        ∙ rw (e, validate_value) (clamp-within min max value h),
  )
    where
      clamped : corrected_value ua fp a value ≡ (success, clamp ua fp min max value)
      clamped = rw (e, corrected_value) refl
  by_kind a value (discrete v) e h =
      let (done, among) = choose-In v value (list_of ua v) refl h.1 in
      (
        ap (λ r. r.0) corrected ∙ done,
        ap (λ r. validate_value ua fp a r.1) corrected
            ∙ rw (e, validate_value)
                (rw ((is_choice_iff ua fp v (choose ua fp v value).1).1 among) refl),
      )
    where
      corrected : corrected_value ua fp a value ≡ choose ua fp v value
      corrected = rw (e, corrected_value) refl

  -- Correcting a value succeeds, and the actuator accepts the result, when the actuator is ready for
  -- the value.
  pub validate-corrected :
      (a : Actuator ua fp) (value : fp.Double)
      → IsReadyFor value a.kind
      → ((corrected_value ua fp a value).0 ≡ success)
        × (validate_value ua fp a (corrected_value ua fp a value).1 ≡ success)
  validate-corrected a value h = by_kind a value a.kind refl h

  -- Between the first and the last choice, the discrete correction returns a choice that none of the
  -- choices is nearer to the value than.
  pub choose_nearest :
      (v : Vector ua fp.Double) (d : fp.Double) (ds : List fp.Double) (value : fp.Double)
      → list_of ua v ≡ d ∷ ds
      → HasNear value (d ∷ ds)
      → Le fp d value
      → Le fp value (last d ds)
      → (r : fp.Double) × (choose ua fp v value ≡ (success, r))
        × In r (d ∷ ds)
        × NoneNearer ua fp value r (d ∷ ds)
  choose_nearest v d ds value e h low high =
      let near = nearest_lem ua fp value ds d in
      (
        nearest ua fp value ds (gap ua fp value d) d,
        choose_lem v d ds value e ∙ rw (low, high, first_step value d ds h) refl,
        near.among,
        (near.first, near.rest),
      )

  -- With memory left, the choices pushed are at the end in order.
  pub push_all_lem :
      (m : Memory ua) (v : Vector ua fp.Double) (xs : List fp.Double)
      → list_of ua (push_all ua fp v xs) ≡ list_of ua v ++ xs
  unfolding push_all
  push_all_lem m v [] = sym (append-nil (list_of ua v))
  push_all_lem m v (x ∷ xs) =
      push_all_lem m (Vector.append_one ua v x).1 xs
      ∙ ap (λ l. l ++ xs) (append_one_lem ua v m x).1
      ∙ append_assoc (list_of ua v) (x ∷ []) xs

  -- nrm_actuator_discrete_set_choices, of one choice or more on a discrete actuator, with memory
  -- left: it returns 0, the choices become the given ones, each as often, in ascending order, and
  -- the rest of the actuator stays.
  pub set_choices_lem :
      (qs : Qsort ua) (m : Memory ua) (a : Actuator ua fp) (v : Vector ua fp.Double)
      → (x : fp.Double) (xs : List fp.Double) → a.kind ≡ discrete v
      → (w : Vector ua fp.Double) × (set_choices ua fp qs (some a) (some (x ∷ xs))
          ≡ (success, some (record a { kind = discrete w })))
        × Perm (list_of ua w) (x ∷ xs)
        × IsAscending fp (list_of ua w)
  unfolding set_choices refilled
  set_choices_lem qs m a v x xs e = (
    refilled ua fp qs v (x ∷ xs),
    rw (e, set_choices) refl,
    subst (Perm (list_of ua (refilled ua fp qs v (x ∷ xs)))) same
        (qs.sort-perm fp.Double (sort_double_cmp fp) full.array),
    ascending fp _ (
        qs.sort-IsSorted fp.Double (sort_double_cmp fp) full.array (sort_double_cmp-IsOrdering fp)),
  )
    where
      resized : Vector ua fp.Double
      resized = (Vector.store ua v (ua.resize fp.Double fp.zero v.array (length (x ∷ xs)))).1

      cleared : Vector ua fp.Double
      cleared = record resized { array = ua.clear fp.Double resized.array }

      full : Vector ua fp.Double
      full = push_all ua fp cleared (x ∷ xs)

      same : list_of ua full ≡ x ∷ xs
      same =
          push_all_lem m cleared (x ∷ xs)
          ∙ ap (λ l. l ++ x ∷ xs) (ua.contents-clear fp.Double resized.array)

  -- nrm_actuator_discrete_list_choices, with memory left, returns a vector of its own with the
  -- actuator's choices.
  pub list_choices_lem :
      (m : Memory ua) (a : Actuator ua fp) (v : Vector ua fp.Double)
      (old : Ptr (Vector ua fp.Double))
      → (n : ℕ) → a.kind ≡ discrete v
      → v.sz ≡ suc n
      → (w : Vector ua fp.Double) × (list_choices ua fp (some a) (some old)
          ≡ (success, some (some w)))
        × (list_of ua w ≡ list_of ua v)
  unfolding list_choices
  list_choices_lem m a v old n e sized =
      let (w, copied, same) = copy_lem ua m v none n sized in
      (w, rw (e, copied, list_choices) copied, same)
