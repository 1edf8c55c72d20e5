-- ===== src/Actuator/Values.antt =====
-- Which values an actuator accepts, and what it corrects the others to.
use libnrm.Prelude.{
  ℕ, ◌+◌, ◌≡◌, refl, sym, ◌∙◌, ◌⊎◌, inl, inr, ◌↔◌, true, false, some, List, [], ◌∷◌, ◌++◌, arith,
  if◌then◌else◌, length, length-append, get_elem?, Bool-cases, subst,
}
use mathlib.Core.List.{append_assoc}
use libnrm.Ext.Utarray.{Utarray}
use libnrm.Ext.Doubles.{Doubles, Le, le_of_lt, le_trans, le_refl}
use libnrm.Vector.{Vector}
use libnrm.Vector.Laws.{list_of, get_elem?-length}
use libnrm.Actuator.{nearest, is_choice}

module _ {A : Type 0} where
  abbrev pub In : A → List A → Type 0
  In a [] = ⊥
  In a (x ∷ l) = (x ≡ a) ⊎ In a l

  abbrev pub last : A → List A → A
  last d [] = d
  last d (x ∷ l) = last x l

  pub last_nth : (d : A) (l : List A) → get_elem? (d ∷ l) (length l) ≡ some (last d l)
  last_nth d [] = refl
  last_nth d (x ∷ l) = last_nth x l

  pub In-last : (d : A) (l : List A) → In (last d l) (d ∷ l)
  In-last d [] = inl refl
  In-last d (x ∷ l) = inr (In-last x l)

module _ (ua : Utarray) (fp : Doubles) where
  -- fabs(value - d)
  abbrev pub gap : fp.Double → fp.Double → fp.Double
  gap value d = fp.fabs (fp.sub value d)

  -- No listed number is nearer to `value` than `r`.
  abbrev pub NoneNearer : fp.Double → fp.Double → List fp.Double → Type 0
  NoneNearer value r [] = Unit {0}
  NoneNearer value r (d ∷ ds) = Le fp (gap value r) (gap value d) × NoneNearer value r ds

  NoneNearer-trans :
      (value r s : fp.Double) (ds : List fp.Double)
      → Le fp (gap value r) (gap value s)
      → NoneNearer value s ds
      → NoneNearer value r ds
  NoneNearer-trans value r s [] h v = tt
  NoneNearer-trans value r s (d ∷ ds) h v = (
    le_trans fp (gap value r) (gap value s) (gap value d) h v.0,
    NoneNearer-trans value r s ds h v.1,
  )

  -- `r` is `ret` or a listed number, and none of these is nearer.
  pub record IsNearest (value ret : fp.Double) (ds : List fp.Double) (r : fp.Double) : Type 0 where
    pub among : In r (ret ∷ ds)
    pub first : Le fp (gap value r) (gap value ret)
    pub rest : NoneNearer value r ds

  closer :
      (value d ret : fp.Double) (ds : List fp.Double)
      → fp.lt (gap value d) (gap value ret) ≡ true
      → nearest ua fp value (d ∷ ds) (gap value ret) ret ≡ nearest ua fp value ds (gap value d) d
  unfolding nearest
  closer value d ret ds e = rw (e, nearest)

  farther :
      (value d ret : fp.Double) (ds : List fp.Double)
      → fp.lt (gap value d) (gap value ret) ≡ false
      → nearest ua fp value (d ∷ ds) (gap value ret) ret
        ≡ nearest ua fp value ds (gap value ret) ret
  unfolding nearest
  farther value d ret ds e = rw (e, nearest)

  In-head : (r ret d : fp.Double) (ds : List fp.Double) → In r (ret ∷ ds) → In r (ret ∷ d ∷ ds)
  In-head r ret d ds (inl h) = inl h
  In-head r ret d ds (inr h) = inr (inr h)

  -- From a choice `ret` on, the loop ends with a choice that none is nearer than.
  pub nearest_lem :
      (value : fp.Double) (ds : List fp.Double) (ret : fp.Double)
      → IsNearest value ret ds (nearest ua fp value ds (gap value ret) ret)
  nearest_lem value [] ret = record {
    among = inl (unfold nearest in refl);
    first = unfold nearest in le_refl fp (gap value ret);
    rest = tt;
  }
  nearest_lem value (d ∷ ds) ret = elim (Bool-cases (fp.lt (gap value d) (gap value ret))) [
    | inl e ↦
        let v = nearest_lem value ds d in
        subst (IsNearest value ret (d ∷ ds)) (sym (closer value d ret ds e)) (record {
          among = inr v.among;
          first =
              le_trans fp _ (gap value d) (gap value ret) v.first
                (le_of_lt fp (gap value d) (gap value ret) e);
          rest = (v.first, v.rest);
        })
    | inr e ↦
        let v = nearest_lem value ds ret in
        subst (IsNearest value ret (d ∷ ds)) (sym (farther value d ret ds e)) (record {
          among = In-head _ ret d ds v.among;
          first = v.first;
          rest = (le_trans fp _ (gap value ret) (gap value d) v.first e, v.rest);
        })
  ]

  -- The loop of the validation finds a number among those from a position on.
  is_choice_lem :
      (v : Vector ua fp.Double) (value : fp.Double) (ys xs : List fp.Double) (i : ℕ)
      → list_of ua v ≡ xs ++ ys
      → i ≡ length xs
      → (is_choice ua fp (length ys) i v value ≡ true) ↔ In value ys
  unfolding is_choice
  is_choice_lem v value [] xs i e h = (λ k. absurd (ground arith), λ k. absurd k)
  is_choice_lem v value (y ∷ ys) xs i e h =
      let later : (is_choice ua fp (length ys) (i + 1) v value ≡ true) ↔ In value ys =
        is_choice_lem v value ys (xs ++ y ∷ []) (i + 1) (e ∙ sym (append_assoc xs (y ∷ []) ys))
          (omega (arith, h, length-append xs (y ∷ []))) in
      elim (Bool-cases (fp.eq y value)) [
        | inl q ↦ (λ k. inl ((fp.eq_iff y value).0 q), λ k. step ∙ rw q)
        | inr q ↦ (
          λ k. inr (later.0 (sym (step ∙ rw q) ∙ k)),
          λ k. elim k [
            | inl w ↦ absurd (ground (arith, (fp.eq_iff y value).1 w))
            | inr w ↦ step ∙ rw q (later.1 w)
          ],
        )
      ]
    where
      here : ua.eltptr fp.Double v.array i ≡ some y
      here = rw (ua.eltptr-contents fp.Double v.array i, e, h) (get_elem?-length xs ys y)

      step :
          is_choice ua fp (length (y ∷ ys)) i v value
          ≡ (if fp.eq y value then true else is_choice ua fp (length ys) (i + 1) v value)
      step = rw (here, is_choice)

  -- Validation of a discrete value: it is one of the choices.
  pub is_choice_iff :
      (v : Vector ua fp.Double) (value : fp.Double)
      → (is_choice ua fp (ua.len fp.Double v.array) 0 v value ≡ true) ↔ In value (list_of ua v)
  is_choice_iff v value =
      rw (ua.len-contents fp.Double v.array) (is_choice_lem v value (list_of ua v) [] 0 refl refl)
