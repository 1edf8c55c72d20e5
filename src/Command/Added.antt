-- ===== src/Command/Added.antt =====
-- What the add commands of src/binaries/nrmc.c do, by a client that is linked to the daemon.
use libnrm.Prelude.{
  bind_some, ◌≡◌, refl, ap, ◌∙◌, Bool, true, false, Option, none, some, if◌then◌else◌, subst, List,
  [], ◌∷◌, ◌++◌, map,
}
use libnrm.Prelude.Int.{pos}
use libnrm.Prelude.Bytes.{Bytes, ascii}
use libnrm.Error.{ErrorCode, success, einval}
use libnrm.Ext.Uthash.{Uthash}
use libnrm.Ext.Utarray.{Utarray, Memory}
use libnrm.Ext.Qsort.{Qsort}
use libnrm.Ext.Doubles.{Doubles}
use libnrm.Ext.Jansson.{Jansson}
use libnrm.Hash.{pointers}
use libnrm.Bitmap
use libnrm.Bitmap.{Bitmap, set_all}
use libnrm.Bitmap.Membership.{IsValid, reset-IsValid}
use libnrm.Bitmap.Arrays.{set_all-IsValid}
use libnrm.Scope
use libnrm.Scope.{Scope, zero_map}
use libnrm.State
use libnrm.State.{Sensor, Slice}
use libnrm.Vector.{Ptr}
use libnrm.Message.{Message}
use libnrm.Message.RoundTrip.{IsWhole}
use libnrm.Role.{Broker}
use libnrm.Server.{Server, Callbacks}
use libnrm.Json.{
  scope_to_json, scope_from_json, scope_of, named_to_json, bitmap_from_json, optional_string,
}
use libnrm.Client.{Transport}
use libnrm.Client.Link.{Link}
use libnrm.Client.Adding.{after, adds_lem}
use libnrm.Client.Answers.{Linked, Net}
use libnrm.Command.{dumped, cmd_add_scope, cmd_add_slice, cmd_add_sensor, show_added, add_read}

module _ (fp : Doubles) (js : Jansson fp) where
  bitmap_from_json-IsValid :
      (m : Bitmap) (j : Ptr js.Json) → IsValid m → IsValid (bitmap_from_json fp js m j).1
  unfolding bitmap_from_json
  bitmap_from_json-IsValid m none v = v
  bitmap_from_json-IsValid m (some j) v = by_items (js.items j)
    where
      by_items :
          (l : Option (List js.Json))
          → IsValid (
              let r : ErrorCode × Bitmap = elim l [
                | none ↦ (einval, m)
                | some k ↦ (success, set_all (Bitmap.reset m) (map js.integer_value k))
              ] in
              r.1)
      by_items none = v
      by_items (some k) =
          set_all-IsValid (map js.integer_value k) (Bitmap.reset m) (reset-IsValid m)

  zero_IsValid : IsValid zero_map
  zero_IsValid = reset-IsValid (record { mask = [] })

  created_IsWhole : (name : Bytes) → IsWhole (Scope.create name)
  unfolding Scope.create
  created_IsWhole name = record {
    three = refl;
    cpus = zero_IsValid;
    numas = zero_IsValid;
    gpus = zero_IsValid;
  }

  -- A new scope that is read from JSON has well-formed maps, whatever the JSON is.
  pub scope_from_json-IsWhole :
      (name : Bytes) (j : Ptr js.Json) → IsWhole (scope_from_json fp js (Scope.create name) j).1
  unfolding scope_from_json scope_of Scope.create
  scope_from_json-IsWhole name none = created_IsWhole name
  scope_from_json-IsWhole name (some json) =
      by_test (js.is_object json) (optional_string fp js json (ascii "uuid"))
    where
      by_test :
          (b : Bool) (o : Option (Option Bytes))
          → IsWhole (
              let r : ErrorCode × Scope =
                if b
                then (elim o [
                  | none ↦ (einval, Scope.create name)
                  | some uuid ↦ (success, scope_of fp js (Scope.create name) json uuid)
                ])
                else (einval, Scope.create name) in
              r.1)
      by_test false o = created_IsWhole name
      by_test true none = created_IsWhole name
      by_test true (some uuid) = record {
        three = refl;
        cpus = bitmap_from_json-IsValid zero_map (js.member json (ascii "cpu")) zero_IsValid;
        numas = bitmap_from_json-IsValid zero_map (js.member json (ascii "numa")) zero_IsValid;
        gpus = bitmap_from_json-IsValid zero_map (js.member json (ascii "gpu")) zero_IsValid;
      }

module _ (uh : Uthash Bytes) (ua : Utarray) (fp : Doubles) (qs : Qsort ua) (m : Memory ua)
    (User Ctx : Type 0) (cb : Callbacks uh ua fp User) (stacked : Bytes) (b : Broker fp.Double Ctx)
    (s : Server uh ua fp User) (me : Bytes) (others : List (Bytes × Message fp.Double))
    (js : Jansson fp) where
  abbrev pub At : Link uh ua fp qs User Ctx
  At = Linked uh ua fp qs m User Ctx cb stacked b s me others

  abbrev pub N : Transport fp.Double
  N = Net uh ua fp qs m User Ctx cb stacked b s me others

  abbrev pub then_at : State.State uh ua fp → Link uh ua fp qs User Ctx
  then_at = after uh ua fp qs m User Ctx cb stacked b s me others

  -- cmd_add_sensor, cmd_add_slice and cmd_add_scope, by a client that is linked to the daemon, with names
  -- that are new there and, for a scope, a JSON text that nrm_scope_from_json accepts: each command ends
  -- with code 0 and prints the object's JSON, and the daemon has the object after those of its kind that it
  -- had, and what it had of the other kinds.
  pub cmd_adds_lem :
      (json_loads : Bytes → Ptr js.Json) (cmd name param : Bytes) (l : List Bytes) (c : Scope)
      → scope_from_json fp js (Scope.create name) (json_loads param) ≡ (success, c)
      → uh.find Sensor s.state.sensors name ≡ none
      → uh.find Slice s.state.slices name ≡ none
      → uh.find Scope s.state.scopes c.uuid ≡ none
      → ((t : uh.Table Sensor) × (cmd_add_sensor ua fp qs N js At (cmd ∷ name ∷ l)
            ≡ some (
              pos 0,
              dumped ua fp qs N js (named_to_json fp js name),
              then_at (record s.state { sensors = t }),
            ))
          × (pointers uh t ≡ pointers uh s.state.sensors ++ record { uuid = name } ∷ []))
        × ((t : uh.Table Slice) × (cmd_add_slice ua fp qs N js At (cmd ∷ name ∷ l)
              ≡ some (
                pos 0,
                dumped ua fp qs N js (named_to_json fp js name),
                then_at (record s.state { slices = t }),
              ))
            × (pointers uh t ≡ pointers uh s.state.slices ++ record { uuid = name } ∷ []))
        × ((t : uh.Table Scope) × (cmd_add_scope ua fp qs N js json_loads At
                (cmd ∷ name ∷ param ∷ [])
              ≡ some (
                pos 0,
                dumped ua fp qs N js (scope_to_json fp js c),
                then_at (record s.state { scopes = t }),
              ))
            × (pointers uh t ≡ pointers uh s.state.scopes ++ c ∷ []))
  unfolding cmd_add_sensor cmd_add_slice cmd_add_scope show_added add_read
  cmd_adds_lem json_loads cmd name param l c read new_sensor new_slice new_scope =
      let whole : IsWhole c =
        subst IsWhole (ap (λ r. r.1) read)
          (scope_from_json-IsWhole fp js name (json_loads param)) in
      let (sensor, slice, place) =
        adds_lem uh ua fp qs m User Ctx cb stacked b s me others (record { uuid = name })
          (record { uuid = name }) c new_sensor new_slice new_scope whole in
      let (t, added, has) = sensor in
      let (t', added', has') = slice in
      let (t₂, added₂, has₂) = place in
      (
        (t, bind_some added _, has),
        (t', bind_some added' _, has'),
        (t₂, ap (λ r. add_read ua fp qs N js r At) read ∙ bind_some added₂ _, has₂),
      )
