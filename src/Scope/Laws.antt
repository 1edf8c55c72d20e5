-- ===== src/Scope/Laws.antt =====
-- What src/utils/scopes.c adds to a scope's bitmaps, and its copies.
use libnrm.Prelude.{
  ltb, ℕ, ◌<◌, ◌≤◌, ◌≡◌, refl, ap, ◌∙◌, Bool, true, false, ◌&&◌, ◌||◌, List, [], ◌∷◌, arith, leb,
  ◌==◌, if◌then◌else◌, get_or, set, length, Bool-cases, inl, inr,
}
use libnrm.Prelude.Int.{ℤ, pos, negsuc}
use libnrm.Bitmap
use libnrm.Bitmap.{Bitmap, test_bit, or_bit, set_bit}
use libnrm.Bitmap.Membership.{IsValid, test_bit-or_bit, get_or-set}
use libnrm.Scope.{Scope, map_of, zero_map, add, dup}

add_in_range :
    (s : Scope) (type num : ℕ)
    → num < 2048
    → add s type num ≡ (pos 0, record s { maps = set s.maps type (or_bit (map_of s type) num) })
unfolding add set_bit
add_in_range s type num h = rw small refl
  where
    small : leb 2048 num ≡ false
    small = ground arith

add_past_end :
    (s : Scope) (type num : ℕ)
    → 2048 ≤ num
    → add s type num ≡ (negsuc 0, record s { maps = set s.maps type (map_of s type) })
unfolding add set_bit
add_past_end s type num h = rw large refl
  where
    large : leb 2048 num ≡ true
    large = ground arith

unchanged :
    (s : Scope) (type t : ℕ) (b : Bool)
    → (type == t) ≡ b
    → (if b then map_of s type else map_of s t) ≡ map_of s t
unchanged s type t true e = ap (λ k. map_of s k) (ground arith)
unchanged s type t false e = refl

either :
    (s : Scope) (type num t n : ℕ) (b : Bool)
    → (type == t) ≡ b
    → num < 2048
    → IsValid (map_of s type)
    → test_bit (if b then or_bit (map_of s type) num else map_of s t) n
      ≡ (b && num == n) || test_bit (map_of s t) n
either s type num t n true e h v =
    test_bit-or_bit (map_of s type) num n h v
    ∙ ap (λ k. (num == n) || test_bit (map_of s k) n) (ground arith)
either s type num t n false e h v = refl

-- nrm_scope_add, on a scope with its three maps: below 2048 it returns 0 and adds the number to the
-- map of the type and nothing else to any map; from 2048 on it returns -1 and adds nothing.
pub add_lem :
    (s : Scope) (type num t n : ℕ)
    → length s.maps ≡ 3
    → type < 3
    → IsValid (map_of s type)
    → ((add s type num).0 ≡ (if ltb num 2048 then pos 0 else negsuc 0))
      × (test_bit (map_of (add s type num).1 t) n
          ≡ (ltb num 2048 && ((type == t) && num == n)) || test_bit (map_of s t) n)
add_lem s type num t n sized ht v = elim (Bool-cases (ltb num 2048)) [
  | inl e ↦ rw e (
    ap (λ r. r.0) (add_in_range s type num (ground arith)),
    ap (λ (r : ℤ × Scope). test_bit (map_of r.1 t) n) (add_in_range s type num (ground arith))
        ∙ ap (λ m. test_bit m n)
            (get_or-set s.maps type t (or_bit (map_of s type) num) zero_map (omega (arith, sized)))
        ∙ either s type num t n (type == t) refl (ground arith) v,
  )
  | inr e ↦ rw e (
    ap (λ r. r.0) (add_past_end s type num (ground arith)),
    ap (λ (r : ℤ × Scope). test_bit (map_of r.1 t) n) (add_past_end s type num (ground arith))
        ∙ ap (λ m. test_bit m n)
            (get_or-set s.maps type t (map_of s type) zero_map (omega (arith, sized))
              ∙ unchanged s type t (type == t) refl),
  )
]

-- Three maps are known by their positions.
pub maps_lem :
    (l : List Bitmap)
    → length l ≡ 3
    → get_or l 0 zero_map ∷ get_or l 1 zero_map ∷ get_or l 2 zero_map ∷ [] ≡ l
maps_lem [] e = absurd (omega arith)
maps_lem (a ∷ []) e = absurd (omega arith)
maps_lem (a ∷ b ∷ []) e = absurd (omega arith)
maps_lem (a ∷ b ∷ c ∷ []) e = refl
maps_lem (a ∷ b ∷ c ∷ d ∷ l) e = absurd (omega arith)

-- nrm_scope_dup copies a scope with its three maps.
pub dup_lem : (s : Scope) → length s.maps ≡ 3 → (dup s).maps ≡ s.maps
unfolding dup Bitmap.copy
dup_lem s h = maps_lem s.maps h
