-- ===== src/Json/Scopes.antt =====
-- JSON of bitmaps and scopes, made and read back.
use libnrm.Prelude.{
  bind_some, ℕ, zero, suc, ◌+◌, ◌≤◌, ◌≡◌, refl, sym, ap, ap₂, ◌∙◌, Bool, true, some, List, [], ◌∷◌,
  map, arith, lt→ltb, Bool-cases, inl, inr,
}
use libnrm.Prelude.Int.{pos}
use libnrm.Prelude.Bytes.{Bytes, ascii, bytes_eq}
use libnrm.Error.{success}
use libnrm.Ext.Doubles.{Doubles}
use libnrm.Ext.Jansson.{Jansson, find_member}
use libnrm.Bitmap
use libnrm.Bitmap.{Bitmap, test_bit, nset_of, set_all, from_array, to_array}
use libnrm.Bitmap.Membership.{IsValid, nonzero-isset}
use libnrm.Bitmap.Count.{count_from, indices_from, nset_of-eq-count, to_array_lem}
use libnrm.Bitmap.Arrays.{from_array-to_array}
use libnrm.Scope.{Scope, map_of, type_cpu, type_numa, type_gpu}
use libnrm.Message.RoundTrip.{IsWhole}
use libnrm.Scope.Laws.{maps_lem}
use libnrm.Json.{
  listed, bitmap_to_json, bitmap_from_json, scope_to_json, scope_of, scope_from_json,
  optional_string,
}

none_left : (i r : ℕ) (p : ℕ → Bool) → 0 ≡ count_from i r p → indices_from i r p ≡ []
unfolding count_from indices_from
none_left i zero p h = refl
none_left i (suc r) p h = ground (arith, none_left (i + 1) r p)

-- The loop of nrm_bitmap_to_json lists the indices to come, and its early end loses none.
listed_lem :
    (m : Bitmap) (size r i printed : ℕ)
    → i + r ≤ 2048
    → size ≡ printed + count_from i r (test_bit m)
    → listed m size r i printed ≡ indices_from i r (test_bit m)
unfolding listed indices_from count_from
listed_lem m size zero i printed hi hs = refl
listed_lem m size (suc r) i printed hi hs = elim (Bool-cases (test_bit m i)) [
  | inl e ↦
      rw (e, nonzero-isset m i (omega arith), e, lt→ltb printed size (ground arith))
        (ap (λ l. i ∷ l) (listed_lem m size r (i + 1) (printed + 1) (omega arith) (ground arith)))
  | inr e ↦ ground (
    arith,
    nonzero-isset m i,
    listed_lem m size r (i + 1) printed,
    none_left (i + 1) r (test_bit m),
  )
]

module _ (fp : Doubles) (js : Jansson fp) where
  integers_lem : (l : List ℕ) → map js.integer_value (map (λ i. js.integer (pos i)) l) ≡ map pos l
  integers_lem [] = refl
  integers_lem (i ∷ l) = ap₂ ◌∷◌ (js.integer_value-integer (pos i)) (integers_lem l)

  -- Reading the JSON of a well-formed bitmap into any bitmap gives the first.
  bitmap_lem :
      (m old : Bitmap)
      → IsValid m
      → bitmap_from_json fp js old (some (bitmap_to_json fp js m)) ≡ (success, m)
  unfolding bitmap_from_json bitmap_to_json from_array
  bitmap_lem m old v =
      rw
        (
          js.items-array (map (λ i. js.integer (pos i)) (listed m (nset_of m) 2048 0 0)),
          bitmap_from_json,
        )
        (ap (λ k. (success, k))
          (ap (λ l. set_all (Bitmap.reset old) l)
              (integers_lem (listed m (nset_of m) 2048 0 0) ∙ ap (λ l. map pos l) same)
            ∙ from_array-to_array m old v))
    where
      same : listed m (nset_of m) 2048 0 0 ≡ (to_array m).1
      same =
          listed_lem m (nset_of m) 2048 0 0 (omega arith) (omega (arith, nset_of-eq-count m))
          ∙ sym (ap (λ r. r.1) (to_array_lem m))

  -- The members of an object, with their values.
  at :
      (l : List (Bytes × js.Json)) (k : Bytes) (j : js.Json)
      → find_member k l ≡ some j
      → js.member (js.object l) k ≡ some j
  at l k j h = js.member-object l k ∙ h

  read_lem :
      (json : js.Json) (uuid : Bytes) (m0 m1 m2 : Bitmap) (old : Scope)
      → IsValid m0
      → IsValid m1
      → IsValid m2
      → js.is_object json ≡ true
      → optional_string fp js json (ascii "uuid") ≡ some (some uuid)
      → js.member json (ascii "cpu") ≡ some (bitmap_to_json fp js m0)
      → js.member json (ascii "numa") ≡ some (bitmap_to_json fp js m1)
      → js.member json (ascii "gpu") ≡ some (bitmap_to_json fp js m2)
      → scope_from_json fp js old (some json)
        ≡ (success, record { uuid = uuid; maps = m0 ∷ m1 ∷ m2 ∷ [] })
  unfolding scope_from_json scope_of
  read_lem json uuid m0 m1 m2 old v0 v1 v2 is name h0 h1 h2 =
      rw
        (
          is,
          name,
          h0,
          h1,
          h2,
          bitmap_lem m0 (map_of old type_cpu) v0,
          bitmap_lem m1 (map_of old type_numa) v1,
          bitmap_lem m2 (map_of old type_gpu) v2,
        )
        refl

  -- nrm_scope_from_json, of what nrm_scope_to_json makes of a scope with a name in UTF-8 and
  -- well-formed maps, gives that scope, whatever scope it is read into.
  pub scope_from_json-scope_to_json :
      (s old : Scope)
      → js.IsText s.uuid
      → IsWhole s
      → (j : js.Json) × (scope_to_json fp js s ≡ some j)
        × (scope_from_json fp js old (some j) ≡ (success, s))
  unfolding scope_to_json optional_string find_member bytes_eq
  scope_from_json-scope_to_json s old text whole =
      let (u, made, named) = js.string_lem s.uuid text in
      let l : List (Bytes × js.Json) =
        (ascii "uuid", u)
        ∷ (ascii "cpu", bitmap_to_json fp js (map_of s type_cpu))
        ∷ (ascii "numa", bitmap_to_json fp js (map_of s type_numa))
        ∷ (ascii "gpu", bitmap_to_json fp js (map_of s type_gpu))
        ∷ [] in
      (
        js.object l,
        bind_some made _,
        read_lem (js.object l) s.uuid _ _ _ old whole.cpus whole.numas whole.gpus
              (js.is_object-object l)
              (rw (at l (ascii "uuid") u refl, optional_string) (bind_some named _))
              (at l (ascii "cpu") _ refl) (at l (ascii "numa") _ refl) (at l (ascii "gpu") _ refl)
            ∙ ap (λ k. (success, record { uuid = s.uuid; maps = k })) (maps_lem s.maps whole.three),
      )
