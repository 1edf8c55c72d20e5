-- ===== src/Client/Gather.antt =====
-- src/client.c: what the loops over the objects of an answer leave in the vector.
use libnrm.Prelude.{
  ◌>>=◌, ◌≡◌, refl, sym, ap, ◌∙◌, Bool, true, false, Option, some, List, [], ◌∷◌, ◌++◌, map,
  if◌then◌else◌,
}
use mathlib.Core.List.{append_assoc, append-nil, Forall₂}
use libnrm.Error.{ErrorCode, success}
use libnrm.Ext.Utarray.{Utarray, Memory}
use libnrm.Vector
use libnrm.Vector.{Vector, Ptr}
use libnrm.Vector.Laws.{list_of, append_one_lem, create_lem}
use libnrm.Prelude.Bytes.{Bytes, bytes_eq}
use libnrm.Client.{other_name, gather, gather_one, on_created, with_vector}

-- The elements that a test does not skip, in order.
pub kept : {X : Type 0} → (X → Bool) → List X → List X
kept skip [] = []
kept skip (x ∷ xs) = let rest = kept skip xs in if skip x then rest else x ∷ rest

pub kept-nothing_skipped : {X : Type 0} (xs : List X) → kept (λ x. false) xs ≡ xs
unfolding kept
kept-nothing_skipped [] = refl
kept-nothing_skipped (x ∷ xs) = ap (λ l. x ∷ l) (kept-nothing_skipped xs)

-- The elements that have a name, in order.
unfoldable pub all_named : {X : Type 0} → (X → Bytes) → Bytes → List X → List X
all_named uuid_of uuid [] = []
all_named uuid_of uuid (x ∷ xs) =
    let rest = all_named uuid_of uuid xs in if bytes_eq uuid (uuid_of x) then x ∷ rest else rest

-- A loop of nrm_client_find keeps these, when a message has its object's name.
pub kept-other_name :
    {X M : Type 0} (uuid_of : X → Bytes) (name : M → Bytes) (message : X → M) (uuid : Bytes)
    → ((x : X) → name (message x) ≡ uuid_of x)
    → (xs : List X) → kept (λ x. other_name name uuid (message x)) xs ≡ all_named uuid_of uuid xs
unfolding kept all_named other_name
kept-other_name uuid_of name message uuid e [] = refl
kept-other_name uuid_of name message uuid e (x ∷ xs) =
    rw (e x, kept-other_name uuid_of name message uuid e xs, kept, all_named)
      (by_test (bytes_eq uuid (uuid_of x)))
  where
    by_test :
        (b : Bool)
        → (if (if b then false else true)
            then all_named uuid_of uuid xs
            else x ∷ all_named uuid_of uuid xs)
          ≡ (if b then x ∷ all_named uuid_of uuid xs else all_named uuid_of uuid xs)
    by_test true = refl
    by_test false = refl

-- Every element has a property.
pub data Every {X : Type 0} (P : X → Type 0) : List X → Type 0 where
  every_nil : Every P []
  every_cons : {x : X} {xs : List X} → P x → Every P xs → Every P (x ∷ xs)

pub Every-unit : {X : Type 0} (xs : List X) → Every (λ x. Unit {0}) xs
Every-unit [] = every_nil
Every-unit (x ∷ xs) = every_cons tt (Every-unit xs)

pub all_pointers :
    {X : Type 0} {xs : List X} {bs : List (Option X)}
    → Forall₂ (λ x a. a ≡ some x) xs bs
    → bs ≡ map some xs
all_pointers Forall₂.nil = refl
all_pointers (Forall₂.cons e l) = rw (e, all_pointers l) refl

module _ (ua : Utarray) (m : Memory ua) {X M A : Type 0} (message : X → M) (make : M → Option A)
    (skip : M → Bool) (P : X → Type 0) (R : X → A → Type 0)
    (made : (x : X) → P x → (a : A) × (make (message x) ≡ some a) × R x a) where
  abbrev Result : Vector ua A → List X → Option (Vector ua A) → Type 0
  Result v xs r =
      (w : Vector ua A) × (bs : List A) × (r ≡ some w)
      × (list_of ua w ≡ list_of ua v ++ bs)
      × Forall₂ R xs bs

  one_more :
      (v : Vector ua A) (x : X) (xs : List X) (a : A) (r : Option (Vector ua A))
      → R x a
      → Result (Vector.append_one ua v a).1 xs r
      → Result v (x ∷ xs) r
  one_more v x xs a r rel (w, bs, done, has, like) = (
    w,
    a ∷ bs,
    done,
    has ∙ ap (λ l. l ++ bs) (append_one_lem ua v m a).1 ∙ append_assoc (list_of ua v) (a ∷ []) bs,
    Forall₂.cons rel like,
  )

  by_test :
      (v : Vector ua A) (x : X) (xs : List X) (b : Bool)
      → skip (message x) ≡ b
      → P x
      → ((v' : Vector ua A)
          → Result v' (kept (λ y. skip (message y)) xs) (gather ua make skip v' (map message xs)))
      → Result v
          (kept (λ y. skip (message y)) (x ∷ xs))
          (gather ua make skip v (map message (x ∷ xs)))
  unfolding gather kept gather_one
  by_test v x xs true e p rest = rw (e, gather, kept, gather_one) (rest v)
  by_test v x xs false e p rest =
      let (a, ok, rel) = made x p in
      rw (e, ok, gather, kept, gather_one)
        (one_more v x (kept (λ y. skip (message y)) xs) a _ rel (rest (Vector.append_one ua v a).1))

  -- The loop, with memory left and an object made for every message: after what the vector had come
  -- the objects of the messages that are not skipped, in order.
  pub gather_lem :
      (xs : List X) (v : Vector ua A)
      → Every P xs
      → Result v (kept (λ x. skip (message x)) xs) (gather ua make skip v (map message xs))
  unfolding gather kept
  gather_lem [] v every_nil = (v, [], refl, sym (append-nil (list_of ua v)), Forall₂.nil)
  gather_lem (x ∷ xs) v (every_cons p ps) =
      by_test v x xs (skip (message x)) refl p (λ v'. gather_lem xs v' ps)

-- A loop that makes an object again of each message, into an empty vector.
pub exact_lem :
    (ua : Utarray) (m : Memory ua) {X M : Type 0} (message : X → M) (make : M → Option (Ptr X))
    (skip : M → Bool) (P : X → Type 0)
    → ((x : X) → P x → make (message x) ≡ some (some x))
    → (xs : List X) (v : Vector ua (Ptr X)) → Every P xs
    → list_of ua v ≡ []
    → (w : Vector ua (Ptr X)) × (gather ua make skip v (map message xs) ≡ some w)
      × (list_of ua w ≡ map some (kept (λ x. skip (message x)) xs))
exact_lem ua m message make skip P again xs v ps empty =
    let (w, made, done, has, like) =
      gather_lem ua m message make skip P (λ x a. a ≡ some x) (λ x p. (some x, again x p, refl)) xs
        v ps in
    (w, done, has ∙ ap (λ l. l ++ made) empty ∙ all_pointers like)

module _ (ua : Utarray) (m : Memory ua) {A : Type 0} where
  -- The vector of a call, with memory left.
  pub with_vector_lem :
      (fill : Vector ua A → Option (Vector ua A))
      → (v : Vector ua A) × (with_vector ua fill
          ≡ ◌>>=◌ {B = ErrorCode × Ptr (Vector ua A)} (fill v) (λ ret. some (success, some ret)))
        × (list_of ua v ≡ [])
  unfolding with_vector on_created
  with_vector_lem fill =
      let (v, made, empty) = create_lem ua m in (v, ap (λ c. on_created ua c fill) made, empty)
