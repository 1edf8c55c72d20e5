-- ===== src/Server/Laws.antt =====
-- What the handlers of src/server.c do to the daemon's state and whom they answer.
use libnrm.Prelude.{
  ℕ, suc, ◌≡◌, refl, ap, ◌∙◌, Option, none, some, List, [], ◌∷◌, ◌++◌, if◌then◌else◌, ◌>>=◌,
}
use mathlib.Core.List.{append_assoc}
use libnrm.Prelude.Int.{pos, negsuc}
use libnrm.Prelude.Bytes.{Bytes}
use libnrm.Error.{success}
use libnrm.Ext.Models.{same_ℤ}
use libnrm.Ext.Uthash.{Uthash}
use libnrm.Ext.Utarray.{Utarray, Memory}
use libnrm.Ext.Doubles.{Doubles}
use libnrm.Hash
use libnrm.Hash.{pointers, Removed, untouched, null_pointer, freed_element}
use libnrm.Hash.Laws.{found, find-add, find-update}
use libnrm.Vector
use libnrm.Vector.{Vector}
use libnrm.Vector.Laws.{list_of, elements_lem}
use libnrm.Actuator.{Actuator, corrected_value, validate_value, set_value, set_clientid}
use libnrm.Actuator.Valid.{IsReadyFor, validate-corrected}
use libnrm.State
use libnrm.State.{State}
use libnrm.State.Laws.{actuator_at, push_each_lem}
use libnrm.Server.{
  Server, Callbacks, actuators, slices, sensors, scopes, unknown, ack, added, new_actuator,
  actuators_list, slices_list, sensors_list, scopes_list, actuate_order, send, write_value, order,
  apply_value, actuate_directly, after_callback, if_found, actuate_callback, add_callback,
  list_callback, list_of_target, fresh,
}

module _ (uh : Uthash Bytes) (ua : Utarray) (fp : Doubles) (User : Type 0) where
  abbrev Daemon : Type 0
  Daemon = Server uh ua fp User

  -- The corrected value of an actuator.
  abbrev pub corrected : Actuator ua fp → fp.Double → fp.Double
  corrected a value = (corrected_value ua fp a value).1

  -- The actuators after a value was stored.
  pub find-write_value :
      (s : State uh ua fp) (uuid j : Bytes) (value : fp.Double) (a : Actuator ua fp)
      → actuator_at uh ua fp s uuid ≡ some a
      → actuator_at uh ua fp (write_value uh ua fp User s uuid value) j
        ≡ (if uh.key.same uuid j then some (set_value ua fp a value) else actuator_at uh ua fp s j)
  unfolding write_value
  find-write_value s uuid j value a h =
      find-update uh (Actuator ua fp) s.actuators uuid j (λ a'. set_value ua fp a' value) ∙ rw h

  -- What an actuator accepts does not depend on its value.
  pub validate-set_value :
      (a : Actuator ua fp) (v w : fp.Double)
      → validate_value ua fp (set_value ua fp a v) w ≡ validate_value ua fp a w
  unfolding set_value validate_value
  validate-set_value a v w = refl

  -- The server after a value was stored and its actuator's owner told.
  abbrev pub ordered : Daemon → Bytes → Bytes → fp.Double → Daemon
  ordered self owner uuid value =
      send uh ua fp User (record self { state = write_value uh ua fp User self.state uuid value })
        (actuate_order uuid value) owner

  -- A value for an actuator that has an owner.
  pub apply_value_lem :
      (self : Daemon) (uuid owner : Bytes) (a : Actuator ua fp) (value : fp.Double)
      → a.clientid ≡ some owner
      → apply_value uh ua fp User self uuid a value
        ≡ some (ordered self owner uuid (corrected a value))
  unfolding apply_value order
  apply_value_lem self uuid owner a value o =
      ap
        (λ c.
          order uh ua fp User
            (record self { state = write_value uh ua fp User self.state uuid (corrected a value) })
            c uuid (corrected a value))
        o

  -- nrm_server_actuate on an actuator that is there and has an owner.
  pub actuate_directly_lem :
      (self : Daemon) (uuid owner : Bytes) (a : Actuator ua fp) (value : fp.Double)
      → actuator_at uh ua fp self.state uuid ≡ some a
      → a.clientid ≡ some owner
      → actuate_directly uh ua fp User self uuid value
        ≡ some (ordered self owner uuid (corrected a value))
  unfolding actuate_directly
  actuate_directly_lem self uuid owner a value h o =
      ap
        (λ (r : Option (Actuator ua fp)). elim r [
          | none ↦ some self
          | some a' ↦ apply_value uh ua fp User self uuid a' value
        ])
        (found uh self.state.actuators uuid ∙ h)
      ∙ apply_value_lem self uuid owner a value o

  allowed_lem :
      (self : Daemon) (uuid owner : Bytes) (a : Actuator ua fp) (value : fp.Double)
      → actuator_at uh ua fp self.state uuid ≡ some a
      → a.clientid ≡ some owner
      → after_callback uh ua fp User (pos 0, self) uuid value
        ≡ some (ordered self owner uuid (corrected a value))
  unfolding after_callback same_ℤ
  allowed_lem self uuid owner a value h o =
      ap
        (λ (r : Option (Actuator ua fp)). elim r [
          | none ↦ none
          | some a' ↦ apply_value uh ua fp User self uuid a' value
        ])
        (found uh self.state.actuators uuid ∙ h)
      ∙ apply_value_lem self uuid owner a value o

  actuate_found :
      (cb : Callbacks uh ua fp User) (self : Daemon) (client uuid : Bytes) (value : fp.Double)
      → (a : Actuator ua fp) (after : Daemon) → actuator_at uh ua fp self.state uuid ≡ some a
      → after_callback uh ua fp User (cb.actuate self a value) uuid value ≡ some after
      → actuate_callback uh ua fp User cb self client uuid value
        ≡ some (pos 0, send uh ua fp User after ack client)
  unfolding actuate_callback if_found
  actuate_found cb self client uuid value a after h e =
      ap
        (λ o.
          if_found uh ua fp User cb self o uuid value
          >>= (λ d. some (pos 0, send uh ua fp User d ack client)))
        (found uh self.state.actuators uuid ∙ h)
      ∙ ap (λ o. o >>= (λ d. some (pos 0, send uh ua fp User d ack client))) e

  pub actuate_callback_lem :
      (cb : Callbacks uh ua fp User) (self : Daemon) (client uuid owner : Bytes) (value : fp.Double)
      → (a : Actuator ua fp) → actuator_at uh ua fp self.state uuid ≡ some a
      → a.clientid ≡ some owner
      → IsReadyFor ua fp value a.kind
      → cb.actuate self a value ≡ (pos 0, self)
      → (self' : Daemon) × (actuate_callback uh ua fp User cb self client uuid value
          ≡ some (pos 0, self'))
        × (self'.sent
            ≡ self.sent ++ (owner, actuate_order uuid (corrected a value)) ∷ (client, ack) ∷ [])
        × ((j : Bytes)
            → actuator_at uh ua fp self'.state j ≡ (
                if uh.key.same uuid j
                then some (set_value ua fp a (corrected a value))
                else actuator_at uh ua fp self.state j))
        × (validate_value ua fp (set_value ua fp a (corrected a value)) (corrected a value)
            ≡ success)
  unfolding send
  actuate_callback_lem cb self client uuid owner value a h o ready allowed = (
    send uh ua fp User (ordered self owner uuid (corrected a value)) ack client,
    actuate_found cb self client uuid value a (ordered self owner uuid (corrected a value)) h (
        ap (λ r. after_callback uh ua fp User r uuid value) allowed
        ∙ allowed_lem self uuid owner a value h o),
    append_assoc self.sent _ _,
    λ j. find-write_value self.state uuid j (corrected a value) a h,
    validate-set_value a _ _ ∙ (validate-corrected ua fp a value ready).1,
  )

  -- nrm_server_add_callback with an actuator whose name is new: it answers the client with the
  -- actuator, and from then on the state has the actuator, owned by that client, beside what it had.
  pub add_callback_lem :
      (self : Daemon) (client : Bytes) (a : Actuator ua fp)
      → actuator_at uh ua fp self.state a.uuid ≡ none
      → (self' : Daemon) × (add_callback uh ua fp User self client (new_actuator a)
          ≡ (pos 0, self'))
        × (self'.sent
            ≡ self.sent ++ (client, added (new_actuator (set_clientid ua fp a (some client)))) ∷ [])
        × ((j : Bytes)
            → actuator_at uh ua fp self'.state j ≡ (
                if uh.key.same a.uuid j
                then some (set_clientid ua fp a (some client))
                else actuator_at uh ua fp self.state j))
  unfolding add_callback send State.add_actuator set_clientid Hash.add
  add_callback_lem self client a h = (
    (add_callback uh ua fp User self client (new_actuator a)).1,
    refl,
    refl,
    λ j.
        ap (λ (t : uh.Table (Actuator ua fp)). uh.find (Actuator ua fp) t j) (rw (h, Hash.add) refl)
        ∙ find-add uh (Actuator ua fp) self.state.actuators a.uuid j mine h,
  )
    where
      mine : Actuator ua fp
      mine = set_clientid ua fp a (some client)

  module _ (m : Memory ua) where
    fresh_lem :
        {A : Type 0} (sz last : ℕ)
        → sz ≡ suc last
        → (v : Vector ua A) × (fresh uh ua fp User {A = A} sz ≡ some v) × (list_of ua v ≡ [])
    unfolding fresh Vector.create
    fresh_lem {A} sz last e =
        let (a, made) = m.new_ok A in
        (
          record { array = a; sz = sz },
          rw (e, made, fresh, Vector.create) refl,
          ua.contents-new A a made,
        )

    listed :
        {A : Type 0} (v : Vector ua A) (xs : List A)
        → list_of ua v ≡ []
        → Vector.elements ua (State.push_each uh ua fp v xs) ≡ xs
    listed v xs e =
        elements_lem ua (State.push_each uh ua fp v xs)
        ∙ push_each_lem uh ua fp m v xs
        ∙ ap (λ l. l ++ xs) e

    -- nrm_server_list_callback with memory left: it answers the client with all objects of the kind
    -- asked for, in the order of the table, and changes nothing else; a kind that is not known gives
    -- -1 and no answer.
    pub list_callback_lem :
        (self : Daemon) (client : Bytes)
        → (list_callback uh ua fp User self client actuators
            ≡ some (
              pos 0,
              send uh ua fp User self (actuators_list (pointers uh self.state.actuators)) client,
            ))
          × (list_callback uh ua fp User self client slices
              ≡ some (
                pos 0,
                send uh ua fp User self (slices_list (pointers uh self.state.slices)) client,
              ))
          × (list_callback uh ua fp User self client sensors
              ≡ some (
                pos 0,
                send uh ua fp User self (sensors_list (pointers uh self.state.sensors)) client,
              ))
          × (list_callback uh ua fp User self client scopes
              ≡ some (
                pos 0,
                send uh ua fp User self (scopes_list (pointers uh self.state.scopes)) client,
              ))
          × (list_callback uh ua fp User self client unknown ≡ some (negsuc 0, self))
    unfolding list_callback list_of_target State.list_actuators State.list_slices State.list_sensors
        State.list_scopes
    list_callback_lem self client =
        let (va, ea, na) = fresh_lem 16 15 refl in
        let (vl, el, nl) = fresh_lem 8 7 refl in
        let (vn, en, nn) = fresh_lem 8 7 refl in
        let (vc, ec, nc) = fresh_lem 776 775 refl in
        (
          rw (ea, listed va (pointers uh self.state.actuators) na) refl,
          rw (el, listed vl (pointers uh self.state.slices) nl) refl,
          rw (en, listed vn (pointers uh self.state.sensors) nn) refl,
          rw (ec, listed vc (pointers uh self.state.scopes) nc) refl,
          refl,
        )
