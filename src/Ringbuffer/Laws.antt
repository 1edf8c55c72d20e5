-- ===== src/Ringbuffer/Laws.antt =====
-- A ring buffer keeps the latest elements.
use libnrm.Prelude.{
  ℕ, zero, suc, ◌+◌, ◌-◌, ◌<◌, ◌≤◌, ◌≡◌, refl, sym, ap, ◌∙◌, none, some, List, [], ◌∷◌, ◌++◌,
  length, length-append, get_elem?, drop, arith, Bool-cases, inl, inr, ltb, subst,
}
use mathlib.Core.List.{append_assoc, append-nil}
use libnrm.Error.{success, edom}
use libnrm.Ext.Utringbuffer.{Utringbuffer}
use libnrm.Ringbuffer.{create, get, push_back}
use libnrm.Vector.{Ptr}

drop-append {ℓ} :
    {A : Type ℓ} (n : ℕ) (xs ys : List A) → n ≤ length xs → drop n (xs ++ ys) ≡ drop n xs ++ ys
drop-append zero xs ys h = refl
drop-append (suc n) [] ys h = absurd (omega arith)
drop-append (suc n) (x ∷ xs) ys h = drop-append n xs ys (omega arith)

drop-drop {ℓ} : {A : Type ℓ} (n : ℕ) (xs : List A) → drop 1 (drop n xs) ≡ drop (suc n) xs
drop-drop zero xs = refl
drop-drop (suc n) [] = refl
drop-drop (suc n) (x ∷ xs) = drop-drop n xs

length-drop {ℓ} : {A : Type ℓ} (n : ℕ) (xs : List A) → length (drop n xs) ≡ length xs - n
length-drop zero xs = omega arith
length-drop (suc n) [] = omega arith
length-drop (suc n) (x ∷ xs) = omega (arith, length-drop n xs)

module _ (ur : Utringbuffer) {A : Type 0} where
  -- Pushes in order.
  pub fill : Ptr (ur.Ring A) → List A → Ptr (ur.Ring A)
  fill r [] = r
  fill r (x ∷ xs) = fill (push_back ur r (some x)).1 xs

  -- A ring holds the last elements of a list, as many as it has room for.
  record Holds (r : ur.Ring A) (n : ℕ) (done : List A) : Type 0 where
    pub sized : ur.capacity A r ≡ n
    pub kept : ur.contents A r ≡ drop (length done - n) done

  push_lem :
      (r : ur.Ring A) (n : ℕ) (done : List A) (x : A)
      → 1 ≤ n
      → Holds r n done
      → Holds (ur.push_back A r x) n (done ++ x ∷ [])
  push_lem r n done x h v = record {
    sized = ur.capacity-push_back A r x ∙ v.sized;
    kept = elim (Bool-cases (ltb (length done) n)) [
      | inl e ↦ room (ground arith)
      | inr e ↦ full (ground arith)
    ];
  }
    where
      count : length (ur.contents A r) ≡ length done - (length done - n)
      count = ap length v.kept ∙ length-drop (length done - n) done

      one_more : length (done ++ x ∷ []) ≡ length done + 1
      one_more = omega (arith, length-append done (x ∷ []))

      room :
          length done < n
          → ur.contents A (ur.push_back A r x) ≡ drop (length (done ++ x ∷ []) - n) (done ++ x ∷ [])
      room less =
          ur.contents-push_room A r x (omega (arith, count, v.sized))
          ∙ ap (λ l. l ++ x ∷ []) (v.kept ∙ ap (λ k. drop k done) before)
          ∙ sym (ap (λ k. drop k (done ++ x ∷ [])) after)
        where
          before : length done - n ≡ 0
          before = omega (arith, less)

          after : length (done ++ x ∷ []) - n ≡ 0
          after = omega (arith, one_more, less)

      full :
          n ≤ length done
          → ur.contents A (ur.push_back A r x) ≡ drop (length (done ++ x ∷ []) - n) (done ++ x ∷ [])
      full more =
          ur.contents-push_full A r x (omega (arith, count, v.sized))
          ∙ ap (λ l. drop 1 l ++ x ∷ []) v.kept
          ∙ ap (λ l. l ++ x ∷ []) (drop-drop (length done - n) done)
          ∙ sym (drop-append (suc (length done - n)) done (x ∷ []) (omega (arith, h, more)))
          ∙ ap (λ k. drop k (done ++ x ∷ [])) next
        where
          next : suc (length done - n) ≡ length (done ++ x ∷ []) - n
          next = omega (arith, one_more, more)

  fill_lem :
      (xs : List A) (r : ur.Ring A) (n : ℕ) (done : List A)
      → 1 ≤ n
      → Holds r n done
      → (s : ur.Ring A) × (fill (some r) xs ≡ some s) × Holds s n (done ++ xs)
  unfolding fill push_back
  fill_lem [] r n done h v = (r, refl, subst (Holds r n) (sym (append-nil done)) v)
  fill_lem (x ∷ xs) r n done h v =
      let (s, e, w) =
        fill_lem xs (ur.push_back A r x) n (done ++ x ∷ []) h (push_lem r n done x h v) in
      (s, e, subst (Holds s n) (append_assoc done (x ∷ []) xs) w)

  -- nrm_ringbuffer_create with a size and an element size above 0, then pushes: the ring buffer
  -- holds the last elements pushed, as many as its size at most, the oldest of these first, and
  -- nrm_ringbuffer_get on a position returns the element there, or NRM_EDOM past the end.
  pub get-fill :
      (n e : ℕ) (xs : List A) (i : ℕ) (old : Ptr A)
      → (r : ur.Ring A) × (fill (create ur (suc n) (suc e)).1 xs ≡ some r)
        × (ur.contents A r ≡ drop (length xs - suc n) xs)
        × (get ur (some r) i (some old) ≡ elim (get_elem? (drop (length xs - suc n) xs) i) [
          | none ↦ (edom, some none)
          | some x ↦ (success, some (some x))
        ])
  unfolding create get
  get-fill n e xs i old =
      let (r, filled, v) = fill_lem xs (ur.new A (suc n)) (suc n) [] (omega arith) start in
      (r, filled, v.kept, rw (ur.eltptr-contents A r i, v.kept, get) refl)
    where
      none_yet : 0 - suc n ≡ 0
      none_yet = omega arith

      start : Holds (ur.new A (suc n)) (suc n) []
      start = record {
        sized = ur.capacity-new A (suc n);
        kept = ur.contents-new A (suc n) ∙ sym (ap (λ k. drop {A = A} k []) none_yet);
      }
