-- ===== src/Eventbase/Slices.antt =====
-- One scope's slices as a list: filing an event, and what the slices of a range hold.
use libnrm.Prelude.{
  ◌≡◌, refl, sym, ap, ◌∙◌, Bool, true, false, none, some, List, [], ◌∷◌, ◌++◌, arith, if◌then◌else◌,
  Bool-cases, Option-cases, inl, inr, subst,
}
use mathlib.Core.List.{append_assoc, append-nil, Perm, perm_append_comm}
use mathlib.Core.List.Perm
use libnrm.Prelude.Int.{ℤ}
use libnrm.Prelude.Bytes.{Bytes}
use libnrm.Ext.Utarray.{Utarray, Memory}
use libnrm.Ext.Uthash.{Uthash}
use libnrm.Ext.Assoc.{Key, lookup, modify, lookup-append_one}
use libnrm.Vector
use libnrm.Vector.{Vector, Ptr}
use libnrm.Vector.Laws.{list_of, append_one_lem}
use libnrm.Timeserie.{Event, sizeof_event}
use libnrm.Time.{Time}
use libnrm.Hash.Laws.{is_null-of_found}
use libnrm.Eventbase.{
  Timeslice, Scopebase, add_event, new_events, push_in_scope, with_slice, add_timeslice, time2key,
}

swap_last {ℓ} : {A : Type ℓ} (a g : List A) (x : A) → Perm ((a ++ x ∷ []) ++ g) ((a ++ g) ++ x ∷ [])
swap_last a g x =
    rw (append_assoc a (x ∷ []) g, append_assoc a g (x ∷ []))
      (Perm.append_left a (perm_append_comm (x ∷ []) g))

module _ (ua : Utarray) (hb : Uthash Bytes) (hz : Uthash ℤ) (D : Type 0) where
  abbrev pub Slice : Type 0
  Slice = Timeslice ua hb hz D

  abbrev pub slice_events : Slice → List (Event D)
  slice_events tl = elim tl.events [ none ↦ [] | some v ↦ list_of ua v ]

  -- A slice filed under its own key, with a vector.
  pub record IsSound (k : ℤ) (tl : Slice) : Type 0 where
    pub keyed : tl.key ≡ k
    pub events : (v : Vector ua (Event D)) × (tl.events ≡ some v)

  abbrev pub AllSound : List (ℤ × Slice) → Type 0
  AllSound [] = Unit {0}
  AllSound ((k, tl) ∷ l) = IsSound k tl × AllSound l

  -- The events of the slices whose key passes a test, slice by slice.
  unfoldable pub gathered : (ℤ → Bool) → List (ℤ × Slice) → List (Event D)
  gathered p [] = []
  gathered p ((k, tl) ∷ l) = (if p tl.key then slice_events tl else []) ++ gathered p l

  gathered-append :
      (p : ℤ → Bool) (l r : List (ℤ × Slice)) → gathered p (l ++ r) ≡ gathered p l ++ gathered p r
  unfolding gathered
  gathered-append p [] r = refl
  gathered-append p ((k, tl) ∷ l) r =
      ap (λ t. (if p tl.key then slice_events tl else []) ++ t) (gathered-append p l r)
      ∙ sym (append_assoc (if p tl.key then slice_events tl else []) (gathered p l) (gathered p r))

  module _ (m : Memory ua) (time : Time) (val : D) where
    abbrev event : Event D
    event = record { time = time; value = val }

    abbrev file : Slice → Slice
    file tl = add_event ua hb hz D tl time val

    file-IsSound : (k : ℤ) (tl : Slice) → IsSound k tl → IsSound k (file tl)
    unfolding add_event Vector.push_back
    file-IsSound k tl v = record {
      keyed = v.keyed;
      events = ((Vector.append_one ua v.events.0 event).1, rw v.events.1);
    }

    events-file :
        (k : ℤ) (tl : Slice) → IsSound k tl → slice_events (file tl) ≡ slice_events tl ++ event ∷ []
    unfolding add_event Vector.push_back
    events-file k tl v = rw v.events.1 ((append_one_lem ua v.events.0 m event).1)

    modify-AllSound :
        (key : Key ℤ) (k : ℤ) (l : List (ℤ × Slice)) → AllSound l → AllSound (modify key k file l)
    unfolding modify
    modify-AllSound key k [] v = tt
    modify-AllSound key k ((j, tl) ∷ l) v = elim (Bool-cases (key.same j k)) [
      | inl e ↦ rw e (file-IsSound j tl v.0, v.1)
      | inr e ↦ rw e (v.0, modify-AllSound key k l v.1)
    ]

    -- In the slice that it belongs to, an event is filed last.
    head_filed :
        (p : ℤ → Bool) (k : ℤ) (tl : Slice) (g : List (Event D))
        → IsSound k tl
        → Perm
            ((if p tl.key then slice_events (file tl) else []) ++ g)
            (((if p tl.key then slice_events tl else []) ++ g) ++ (if p k then event ∷ [] else []))
    unfolding add_event
    head_filed p k tl g v = elim (Bool-cases (p k)) [
      | inl e ↦ rw (v.keyed, e, events-file k tl v) (swap_last (slice_events tl) g event)
      | inr e ↦ rw (v.keyed, e, append-nil) (Perm.refl g)
    ]

    -- Filing an event under a key that is there adds it to what the key's test gathers.
    gathered-modify :
        (key : Key ℤ) (p : ℤ → Bool) (k : ℤ) (l : List (ℤ × Slice)) (tl : Slice)
        → AllSound l
        → lookup key k l ≡ some tl
        → Perm (gathered p (modify key k file l)) (gathered p l ++ (if p k then event ∷ [] else []))
    unfolding modify lookup gathered add_event
    gathered-modify key p k [] tl v h = absurd (ground arith)
    gathered-modify key p k ((j, tj) ∷ l) tl v h = elim (Bool-cases (key.same j k)) [
      | inl e ↦ rw e (head_filed p k tj (gathered p l) (file-IsSound-at e))
      | inr e ↦ rw e (
          subst (Perm _)
            (sym (append_assoc (if p tj.key then slice_events tj else []) (gathered p l) _))
            (Perm.append_left (if p tj.key then slice_events tj else [])
              (gathered-modify key p k l tl v.1 (sym (lookup_next e) ∙ h))))
    ]
      where
        file-IsSound-at : key.same j k ≡ true → IsSound k tj
        file-IsSound-at e = record {
          keyed = v.0.keyed ∙ (key.same_iff j k).0 e;
          events = v.0.events;
        }

        lookup_next : key.same j k ≡ false → lookup key k ((j, tj) ∷ l) ≡ lookup key k l
        lookup_next e = rw e

    abbrev fresh : ℤ → Slice
    fresh k = record { key = k; events = new_events ua hb hz D }

    new_events_lem :
        (v : Vector ua (Event D)) × (new_events ua hb hz D ≡ some v) × (list_of ua v ≡ [])
    unfolding new_events Vector.create
    new_events_lem =
        let (a, e) = m.new_ok (Event D) in
        (record { array = a; sz = sizeof_event }, rw e, ua.contents-new (Event D) a e)

    fresh-IsSound : (k : ℤ) → IsSound k (fresh k)
    fresh-IsSound k = record { keyed = refl; events = (new_events_lem.0, new_events_lem.1) }

    fresh-empty : (k : ℤ) → slice_events (fresh k) ≡ []
    fresh-empty k = rw new_events_lem.1 new_events_lem.2

    AllSound-append_one :
        (l : List (ℤ × Slice)) (k : ℤ) (tl : Slice)
        → AllSound l
        → IsSound k tl
        → AllSound (l ++ (k, tl) ∷ [])
    AllSound-append_one [] k tl v w = (w, tt)
    AllSound-append_one ((j, tj) ∷ l) k tl v w = (v.0, AllSound-append_one l k tl v.1 w)

    gathered-fresh :
        (p : ℤ → Bool) (k : ℤ) (l : List (ℤ × Slice))
        → gathered p (l ++ (k, fresh k) ∷ []) ≡ gathered p l
    gathered-fresh p k l = gathered-append p l ((k, fresh k) ∷ []) ∙ (unfold gathered in ends (p k))
      where
        ends :
            (b : Bool)
            → gathered p l ++ ((if b then slice_events (fresh k) else []) ++ []) ≡ gathered p l
        ends true = rw (fresh-empty k) (append-nil (gathered p l))
        ends false = append-nil (gathered p l)

    abbrev slices : Scopebase ua hb hz D → List (ℤ × Slice)
    slices sc = hz.items Slice sc.slices

    -- What the slices of a scope are after nrm_eventbase_push_event files an event there.
    pub record IsFiled (before after : List (ℤ × Slice)) : Type 0 where
      pub sound : AllSound after
      pub holds :
          (p : ℤ → Bool)
          → Perm
              (gathered p after)
              (gathered p before ++ (if p (time2key time) then event ∷ [] else []))

    -- The case of a slice that is there.
    IsFiled-in :
        (l : List (ℤ × Slice)) (tl : Slice)
        → AllSound l
        → lookup hz.key (time2key time) l ≡ some tl
        → IsFiled l (modify hz.key (time2key time) file l)
    IsFiled-in l tl v h = record {
      sound = modify-AllSound hz.key (time2key time) l v;
      holds = λ p. gathered-modify hz.key p (time2key time) l tl v h;
    }

    -- The case of a slice that is made first.
    IsFiled-new :
        (l : List (ℤ × Slice))
        → AllSound l
        → lookup hz.key (time2key time) l ≡ none
        → IsFiled l
            (modify hz.key (time2key time) file (l ++ (time2key time, fresh (time2key time)) ∷ []))
    IsFiled-new l v h = record {
      sound = made.sound;
      holds = λ p. rw (gathered-fresh p (time2key time) l) at (made.holds p);
    }
      where
        k : ℤ
        k = time2key time

        there : lookup hz.key k (l ++ (k, fresh k) ∷ []) ≡ some (fresh k)
        there = lookup-append_one hz.key k k (fresh k) l h ∙ rw ((hz.key.same_iff k k).1 refl)

        made : IsFiled (l ++ (k, fresh k) ∷ []) (modify hz.key k file (l ++ (k, fresh k) ∷ []))
        made = IsFiled-in _ (fresh k) (AllSound-append_one l k (fresh k) v (fresh-IsSound k)) there

    with_slice_new :
        (sc : Scopebase ua hb hz D)
        → hz.find Slice sc.slices (time2key time) ≡ none
        → with_slice ua hb hz D sc (time2key time) ≡ add_timeslice ua hb hz D sc (time2key time)
    unfolding with_slice
    with_slice_new sc e = ground arith

    with_slice_old :
        (sc : Scopebase ua hb hz D) (tl : Slice)
        → hz.find Slice sc.slices (time2key time) ≡ some tl
        → with_slice ua hb hz D sc (time2key time) ≡ sc
    unfolding with_slice
    with_slice_old sc tl e =
        ground (arith, is_null-of_found hz Slice sc.slices (time2key time) tl e)

    pub push_in_scope_lem :
        (sc : Scopebase ua hb hz D)
        → AllSound (slices sc)
        → IsFiled (slices sc) (slices (push_in_scope ua hb hz D sc time val))
    unfolding push_in_scope add_timeslice
    push_in_scope_lem sc v = elim (Option-cases (hz.find Slice sc.slices (time2key time))) [
      | inl e ↦
          rw
            (
              with_slice_new sc e,
              hz.items-update Slice _ (time2key time) file,
              hz.items-add Slice sc.slices (time2key time) _ e,
            )
            (IsFiled-new (slices sc) v (sym (hz.find-items Slice sc.slices (time2key time)) ∙ e))
      | inr (tl, e) ↦
          rw (with_slice_old sc tl e, hz.items-update Slice _ (time2key time) file)
            (IsFiled-in (slices sc) tl v (sym (hz.find-items Slice sc.slices (time2key time)) ∙ e))
    ]
