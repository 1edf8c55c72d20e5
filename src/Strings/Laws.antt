-- ===== src/Strings/Laws.antt =====
-- Comparison, joining and reference counts of src/utils/strings.c.
use libnrm.Prelude.{
  ℕ, suc, ◌+◌, ◌%◌, ◌^◌, ◌<◌, ◌≡◌, ◌↔◌, refl, sym, ap, ap₂, ◌∙◌, some, List, [], ◌∷◌, ◌++◌, Bool,
  true, false, length, ◌==◌, if◌then◌else◌, length-append, take, arith, Bool-cases, inl, inr,
}
use libnrm.Prelude.Int.{ℤ, pos}
use libnrm.Prelude.Bytes.{Bytes}
use libnrm.Strings.{
  RealString, new, frombuf, incref, decref, kept, strlen, cmp, joined, join_next, vjoin_from, vjoin,
}

-- The stored length is the number of bytes.
pub record IsMeasured (s : RealString) : Type 0 where
  pub measured : s.slen ≡ length s.bytes

abbrev pub AllMeasured : List RealString → Type 0
AllMeasured [] = Unit {0}
AllMeasured (s ∷ l) = IsMeasured s × AllMeasured l

pub frombuf-IsMeasured : (b : Bytes) → IsMeasured (frombuf b)
unfolding frombuf new
frombuf-IsMeasured b = record { measured = refl }

pub joined-IsMeasured :
    (a : RealString) (c : ℕ) (b : RealString)
    → IsMeasured a
    → IsMeasured b
    → IsMeasured (joined a c b)
unfolding joined new
joined-IsMeasured a c b v w = record {
  measured = omega (arith, v.measured, w.measured, length-append a.bytes (c ∷ b.bytes));
}

-- The bytes before the first null byte.
abbrev pub until_null : Bytes → Bytes
until_null [] = []
until_null (x ∷ b) = let rest = until_null b in if x == 0 then [] else x ∷ rest

-- What `strncmp` answers: 0 if the strings agree on the first `n` bytes, or up to their ends.
pub record Strncmp : Type 0 where
  pub strncmp : Bytes → Bytes → ℕ → ℤ
  pub strncmp_iff :
      (a b : Bytes) (n : ℕ)
      → (strncmp a b n ≡ pos 0) ↔ (take n (until_null a) ≡ take n (until_null b))

take-until_null : (b : Bytes) → take (length b) (until_null b) ≡ until_null b
take-until_null [] = refl
take-until_null (x ∷ b) = elim (Bool-cases (x == 0)) [
  | inl e ↦ rw e refl
  | inr e ↦ rw e (ap (λ l. x ∷ l) (take-until_null b))
]

-- nrm_string_cmp answers 0 just when the first string, up to a null byte, is a prefix of the second.
pub cmp_iff :
    (c : Strncmp) (one two : RealString)
    → IsMeasured one
    → (cmp c.strncmp (some one) (some two) ≡ pos 0)
      ↔ (until_null one.bytes ≡ take (length one.bytes) (until_null two.bytes))
unfolding cmp
cmp_iff c one two v = rw v.measured (
  λ h. sym (take-until_null one.bytes) ∙ (c.strncmp_iff one.bytes two.bytes (length one.bytes)).0 h,
  λ h. (c.strncmp_iff one.bytes two.bytes (length one.bytes)).1 (take-until_null one.bytes ∙ h),
)

-- A reference more and then one less: the string is as before, while the count has room.
pub decref-incref :
    (s : RealString) (n : ℕ) → s.rc ≡ suc n → s.rc + 1 < 2 ^ 32 → decref (incref s) ≡ kept s
unfolding decref incref
decref-incref s n e h = rw wrapped (ap (λ r. kept (record s { rc = r })) (sym e))
  where
    wrapped : (s.rc + 1) % 2 ^ 32 ≡ suc (suc n)
    wrapped = omega arith

-- The bytes of the strings that are not empty, with `c` between them, after what there is.
pub separated : ℕ → Bytes → List RealString → Bytes
separated c done [] = done
separated c done (s ∷ l) =
    separated c
      (if length s.bytes == 0
        then done
        else if length done == 0
        then s.bytes
        else done ++ c ∷ s.bytes)
      l

incref-IsMeasured : (s : RealString) → IsMeasured s → IsMeasured (incref s)
unfolding incref
incref-IsMeasured s v = record { measured = v.measured }

-- The bytes after one more string.
abbrev next_bytes : ℕ → Bytes → Bytes → Bytes
next_bytes c done b = if length b == 0 then done else if length done == 0 then b else done ++ c ∷ b

either :
    (c : ℕ) (ret s : RealString) (a b : Bool)
    → IsMeasured ret
    → IsMeasured s
    → IsMeasured (if a then ret else if b then incref s else joined ret c s)
      × ((if a then ret else if b then incref s else joined ret c s).bytes
          ≡ (if a then ret.bytes else if b then s.bytes else ret.bytes ++ c ∷ s.bytes))
either c ret s true b v w = (v, refl)
either c ret s false true v w = (incref-IsMeasured s w, unfold incref in refl)
either c ret s false false v w = (joined-IsMeasured ret c s v w, unfold joined in refl)

join_next_lem :
    (c : ℕ) (ret s : RealString)
    → IsMeasured ret
    → IsMeasured s
    → IsMeasured (join_next c ret s) × ((join_next c ret s).bytes ≡ next_bytes c ret.bytes s.bytes)
unfolding join_next
join_next_lem c ret s v w =
    let (m, e) = either c ret s (s.slen == 0) (ret.slen == 0) v w in
    (
      m,
      e
          ∙ ap₂
              (λ j k.
                if j == 0 then ret.bytes else if k == 0 then s.bytes else ret.bytes ++ c ∷ s.bytes)
              w.measured v.measured,
    )

vjoin_from_lem :
    (c : ℕ) (l : List RealString) (ret : RealString)
    → IsMeasured ret
    → AllMeasured l
    → IsMeasured (vjoin_from c ret l) × ((vjoin_from c ret l).bytes ≡ separated c ret.bytes l)
unfolding vjoin_from separated
vjoin_from_lem c [] ret v w = (v, refl)
vjoin_from_lem c (s ∷ l) ret v w =
    let (m, e) = join_next_lem c ret s v w.0 in
    let (m', e') = vjoin_from_lem c l (join_next c ret s) m w.1 in
    (m', e' ∙ ap (λ b. separated c b l) e)

-- nrm_string_vjoin gives the bytes of the strings that are not empty, in order and with the
-- character between them, and their number as the length.
pub vjoin_lem :
    (c : ℕ) (l : List RealString)
    → AllMeasured l
    → ((vjoin c l).bytes ≡ separated c [] l)
      × (strlen (some (vjoin c l)) ≡ length (separated c [] l))
unfolding vjoin strlen frombuf new
vjoin_lem c l w =
    let (m, e) = vjoin_from_lem c l (frombuf []) (frombuf-IsMeasured []) w in
    (e, m.measured ∙ ap length e)
