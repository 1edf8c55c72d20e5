-- ===== src/Ext/Uthash.antt =====
-- uthash (include/internal/uthash.h, an outside library), as the code uses it. A table's elements
-- are structs that it owns; the code writes through the pointer that a search returns, which is
-- `update` here.
use libnrm.Prelude.{◌≡◌, ◌↔◌, Bool, true, Option, none, List, [], ◌∷◌, ◌++◌}
use libnrm.Ext.Assoc.{Key, lookup, modify, without}

pub record Uthash (K : Type 0) : Type 1 where
  pub key : Key K
  pub Table : Type 0 → Type 0
  -- the NULL head
  pub null : (V : Type 0) → Table V
  -- `head == NULL`
  pub is_null : (V : Type 0) → Table V → Bool
  -- HASH_FIND
  pub find : (V : Type 0) → Table V → K → Option V
  -- HASH_ADD and HASH_ADD_KEYPTR
  pub add : (V : Type 0) → Table V → K → V → Table V
  -- HASH_DEL of the element that a search for the key returns
  pub delete : (V : Type 0) → Table V → K → Table V
  pub update : (V : Type 0) → Table V → K → (V → V) → Table V
  -- the elements as HASH_ITER and `hh.next` go through them: in order of insertion
  pub items : (V : Type 0) → Table V → List (K × V)
  pub items-null : (V : Type 0) → items V (null V) ≡ []
  pub is_null_iff : (V : Type 0) (t : Table V) → (is_null V t ≡ true) ↔ (items V t ≡ [])
  pub find-items : (V : Type 0) (t : Table V) (k : K) → find V t k ≡ lookup key k (items V t)
  -- a key that is added is not there yet
  pub items-add :
      (V : Type 0) (t : Table V) (k : K) (v : V)
      → find V t k ≡ none
      → items V (add V t k v) ≡ items V t ++ (k, v) ∷ []
  pub items-delete :
      (V : Type 0) (t : Table V) (k : K) → items V (delete V t k) ≡ without key k (items V t)
  pub items-update :
      (V : Type 0) (t : Table V) (k : K) (f : V → V)
      → items V (update V t k f) ≡ modify key k f (items V t)
