-- ===== src/State/Laws.antt =====
-- What src/state.c keeps and lists.
use libnrm.Prelude.{◌≡◌, refl, sym, ap, ◌∙◌, Option, none, some, List, [], ◌∷◌, ◌++◌}
use mathlib.Core.List.{append_assoc, append-nil}
use libnrm.Prelude.Bytes.{Bytes}
use libnrm.Ext.Uthash.{Uthash}
use libnrm.Ext.Utarray.{Utarray, Memory}
use libnrm.Ext.Doubles.{Doubles}
use libnrm.Hash
use libnrm.Hash.{pointers}
use libnrm.Hash.Laws.{pointers-add}
use libnrm.Vector
use libnrm.Vector.{Vector}
use libnrm.Vector.Laws.{list_of, append_one_lem}
use libnrm.Actuator.{Actuator}
use libnrm.State.{State, add_actuator, push_each, list_actuators}

module _ (uh : Uthash Bytes) (ua : Utarray) (fp : Doubles) where
  pub push_each_lem :
      {A : Type 0} (m : Memory ua) (v : Vector ua A) (xs : List A)
      → list_of ua (push_each uh ua fp v xs) ≡ list_of ua v ++ xs
  unfolding push_each
  push_each_lem m v [] = sym (append-nil (list_of ua v))
  push_each_lem m v (x ∷ xs) =
      push_each_lem m (Vector.append_one ua v x).1 xs
      ∙ ap (λ l. l ++ xs) (append_one_lem ua v m x).1
      ∙ append_assoc (list_of ua v) (x ∷ []) xs

  -- The actuators that a search by name finds.
  abbrev pub actuator_at : State uh ua fp → Bytes → Option (Actuator ua fp)
  actuator_at s k = uh.find (Actuator ua fp) s.actuators k

  -- nrm_state_add_actuator and nrm_state_list_actuators: with memory left, a state to which an
  -- actuator with a new name is added lists what it listed before and then that actuator.
  pub list-add_actuator :
      (m : Memory ua) (s : State uh ua fp) (a : Actuator ua fp) (v : Vector ua (Actuator ua fp))
      → actuator_at s a.uuid ≡ none
      → list_of ua (list_actuators uh ua fp (add_actuator uh ua fp s a) v)
        ≡ list_of ua (list_actuators uh ua fp s v) ++ a ∷ []
  unfolding list_actuators add_actuator
  list-add_actuator m s a v h =
      push_each_lem m v (pointers uh (add_actuator uh ua fp s a).actuators)
      ∙ ap (λ l. list_of ua v ++ l) (pointers-add uh s.actuators a.uuid a h)
      ∙ sym (append_assoc (list_of ua v) (pointers uh s.actuators) (a ∷ []))
      ∙ ap (λ l. l ++ a ∷ []) (sym (push_each_lem m v (pointers uh s.actuators)))

  -- nrm_state_add_actuator with a name that is there leaves the state as it was.
  pub add_actuator_again :
      (s : State uh ua fp) (a b : Actuator ua fp)
      → actuator_at s a.uuid ≡ some b
      → add_actuator uh ua fp s a ≡ s
  unfolding add_actuator Hash.add
  add_actuator_again s a b h = rw (h, Hash.add) refl
