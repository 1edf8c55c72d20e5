-- ===== src/Command/Actions.antt =====
-- cmd_connect and cmd_actuate of src/binaries/nrmc.c.
use libnrm.Prelude.{
  bind_some, ℕ, zero, suc, ◌+◌, ◌<◌, ◌≡◌, ◌≢◌, refl, sym, ap, ◌∙◌, ◌⊎◌, inl, inr, Option, none,
  some, List, [], ◌∷◌, arith, if◌then◌else◌, subst,
}
use mathlib.Core.List.{Forall₂}
use libnrm.Prelude.Int.{ℤ, pos}
use libnrm.Prelude.Bytes.{Bytes}
use libnrm.Error.{ErrorCode, success}
use libnrm.Ext.Uthash.{Uthash}
use libnrm.Ext.Utarray.{Utarray, Memory}
use libnrm.Ext.Qsort.{Qsort}
use libnrm.Ext.Doubles.{Doubles}
use libnrm.Ext.Jansson.{Jansson}
use libnrm.Vector.{Vector, Ptr, elements}
use libnrm.Vector.Laws.{list_of, elements_lem}
use libnrm.Actuator.{Actuator, Kind}
use libnrm.Message.RoundTrip.{IsCopy}
use libnrm.Server.{Server, Callbacks}
use libnrm.Actuator.{validate_value, set_value}
use libnrm.Actuator.Valid.{IsReadyFor}
use libnrm.Hash.{pointers}
use libnrm.State.Laws.{actuator_at}
use libnrm.Server.Laws.{corrected}
use libnrm.Message.{Message}
use libnrm.Message.RoundTrip.{IsWhole}
use libnrm.Role.{Broker}
use libnrm.Client.{Transport}
use libnrm.Client.Link.{link}
use libnrm.Client.Gather.{Every, all_named}
use libnrm.Client.Finding.{find_lem}
use libnrm.Client.Orders.{listening, heard_here, sent_elsewhere, actuate_lem}
use libnrm.Client.Sending.{Listeners, actuate_callback}
use libnrm.Parsers.{parse_uint}
use libnrm.Command.{exit_failure, tries, tries_given, connect, cmd_actuate, only}

-- A code is success, or the choice by it goes to the other branch.
by_code :
    {A : Type 0} (c : ErrorCode) (x y : A)
    → ((c ≡ success) × (let r : A = elim c [ success ↦ x | err ↦ y ] in r ≡ x))
      ⊎ ((c ≢ success) × (let r : A = elim c [ success ↦ x | err ↦ y ] in r ≡ y))
by_code success x y = inl (refl, refl)
by_code err x y = inr (λ h. cc, refl)

-- The tries from `i` on end with the first one that succeeds, or after all `n` of them.
pub data Connects (create : ℕ → ErrorCode) (i n : ℕ) (r : ℤ × ℕ) : Type 0 where
  first_success :
      (j : ℕ)
      → j < n
      → create (i + j) ≡ success
      → ((k : ℕ) → k < j → create (i + k) ≢ success)
      → r ≡ (pos 0, i + j + 1)
      → Connects create i n r
  no_success :
      ((k : ℕ) → k < n → create (i + k) ≢ success)
      → r ≡ (exit_failure, i + n)
      → Connects create i n r

earlier :
    (create : ℕ → ErrorCode) (i n : ℕ)
    → create i ≢ success
    → ((k : ℕ) → k < n → create (i + 1 + k) ≢ success)
    → (k : ℕ) → k < suc n
    → create (i + k) ≢ success
earlier create i n bad rest zero h =
    λ e. bad (sym (ap create (let z : i + 0 ≡ i = omega arith in z)) ∙ e)
earlier create i n bad rest (suc k) h =
    λ e. rest k (omega arith) (ap create (let z : i + 1 + k ≡ i + suc k = omega arith in z) ∙ e)

shift :
    (create : ℕ → ErrorCode) (i n : ℕ) (r : ℤ × ℕ)
    → create i ≢ success
    → Connects create (i + 1) n r
    → Connects create i (suc n) r
shift create i n r bad (first_success j h ok before e) =
    first_success (suc j) (omega arith)
      (ap create (let z : i + suc j ≡ i + 1 + j = omega arith in z) ∙ ok)
      (earlier create i j bad before) (e ∙ ap (λ (k : ℕ). (pos 0, k)) (omega arith))
shift create i n r bad (no_success all e) =
    no_success (earlier create i n bad all) (e ∙ ap (λ (k : ℕ). (exit_failure, k)) (omega arith))

tries_lem : (create : ℕ → ErrorCode) (n i : ℕ) → Connects create i n (tries create n i)
unfolding tries
tries_lem create zero i =
    no_success (λ k h. elim h [ ]) (ap (λ (k : ℕ). (exit_failure, k)) (omega arith))
tries_lem create (suc n) i = elim (by_code (create i) (pos 0, i + 1) (tries create n (i + 1))) [
  | inl (ok, e) ↦
      first_success 0 (omega arith) (ap create (let z : i + 0 ≡ i = omega arith in z) ∙ ok)
        (λ k h. elim h [ ]) (e ∙ ap (λ (k : ℕ). (pos 0, k)) (omega arith))
  | inr (bad, e) ↦
      subst (Connects create i (suc n)) (sym e)
        (shift create i n (tries create n (i + 1)) bad (tries_lem create n (i + 1)))
]

-- cmd_connect, with the number of tries that its argument gives, or 5 without one: it ends, with code 0
-- after the first try at which a client can be created, or with EXIT_FAILURE after all of them.
pub connect_lem :
    (strtol : Bytes → ℤ × ℕ) (create : ℕ → ErrorCode) (cmd given : Bytes) (n : ℕ)
    → parse_uint strtol given (pos 5) ≡ (success, pos n)
    → ((r : ℤ × ℕ) × (connect strtol create (cmd ∷ given ∷ []) ≡ some r) × Connects create 0 n r)
      × ((r : ℤ × ℕ) × (connect strtol create (cmd ∷ []) ≡ some r) × Connects create 0 5 r)
unfolding connect tries_given
connect_lem strtol create cmd given n parsed = (
  (tries create n 0, ap (tries_given create) parsed, tries_lem create n 0),
  (tries create 5 0, refl, tries_lem create 5 0),
)

module _ (uh : Uthash Bytes) (ua : Utarray) (fp : Doubles) (qs : Qsort ua) (m : Memory ua)
    (User Ctx : Type 0) (cb : Callbacks uh ua fp User) (stacked : Bytes)
    (client : Listeners fp.Double Ctx) (me : Bytes) (js : Jansson fp) where
  -- The only copy in a vector of one.
  only_lem :
      (net : Transport fp.Double) (a : Actuator ua fp) (v : Vector ua (Ptr (Actuator ua fp)))
      → Forall₂ (IsCopy ua fp) (a ∷ []) (list_of ua v)
      → (kind : Kind ua fp) × (only ua fp qs net js v ≡ some (record a { kind = kind }))
        × IsCopy ua fp a (some (record a { kind = kind }))
  unfolding only
  only_lem net a v h =
      by_list (elements ua v) (subst (Forall₂ (IsCopy ua fp) (a ∷ [])) (sym (elements_lem ua v)) h)
    where
      by_list :
          (l : List (Ptr (Actuator ua fp)))
          → Forall₂ (IsCopy ua fp) (a ∷ []) l
          → (kind : Kind ua fp) × ((let r : Option (Actuator ua fp) = elim l [
            | [] ↦ none
            | p ∷ k ↦ elim k [ [] ↦ p | _ ↦ none ]
          ] in
                r)
              ≡ some (record a { kind = kind }))
            × IsCopy ua fp a (some (record a { kind = kind }))
      by_list [] f = elim f [ ]
      by_list (p ∷ []) (Forall₂.cons c f) =
          (c.kind, c.made, record { kind = c.kind; made = refl; same = c.same })
      by_list (p ∷ q ∷ l) (Forall₂.cons c f) = elim f [ ]

  -- cmd_actuate, with a name that one actuator of the daemon has and a value that this actuator accepts,
  -- by a client that is linked to the daemon and listens for orders: when the actuator has an owner and the
  -- daemon's callback allows the request, the command prints nothing and ends with code 0; the daemon's
  -- actuator gets the corrected value and its others stay; and the owner is sent the corrected value.
  pub cmd_actuate_lem :
      (b : Broker fp.Double Ctx) (c : Ctx) (s : Server uh ua fp User)
      (others : List (Bytes × Message fp.Double)) (a : Actuator ua fp) (owner : Bytes)
      (strtod : Bytes → fp.Double) (cmd name text : Bytes) (l : List Bytes)
      → Every IsWhole (pointers uh s.state.scopes)
      → all_named (λ x. x.uuid) name (pointers uh s.state.actuators) ≡ a ∷ []
      → ((k : Actuator ua fp)
          → IsCopy ua fp a (some k)
          → validate_value ua fp k (strtod text) ≡ success)
      → actuator_at uh ua fp s.state a.uuid ≡ some a
      → a.clientid ≡ some owner
      → IsReadyFor ua fp (strtod text) a.kind
      → cb.actuate (record s { sent = [] }) a (strtod text) ≡ (pos 0, record s { sent = [] })
      → (s' : Server uh ua fp User) × (cmd_actuate ua fp qs
            (link uh ua fp qs User Ctx cb stacked)
            js
            strtod
            (listening uh ua fp qs User Ctx cb stacked client me b c s others)
            (cmd ∷ name ∷ text ∷ l)
          ≡ some (
            pos 0,
            [],
            listening uh ua fp qs User Ctx cb stacked client me b
                (heard_here uh ua fp qs User Ctx cb stacked client me c owner a.uuid
                  (corrected uh ua fp User a (strtod text)))
                s'
                (sent_elsewhere uh ua fp qs User Ctx cb stacked client me others owner a.uuid
                  (corrected uh ua fp User a (strtod text))),
          ))
        × ((j : Bytes)
            → actuator_at uh ua fp s'.state j ≡ (
                if uh.key.same a.uuid j
                then some (set_value ua fp a (corrected uh ua fp User a (strtod text)))
                else actuator_at uh ua fp s.state j))
  unfolding cmd_actuate
  cmd_actuate_lem b c s others a owner strtod cmd name text l whole one valid found owned ready
        allowed =
      let (_, _, _, actuators) =
        find_lem uh ua fp qs m User Ctx cb stacked
          (record b { cmd_cb = some (actuate_callback client); arg = c }) s me others name whole in
      let (v, e, h) = actuators in
      let (kind, single, copy) =
        only_lem (link uh ua fp qs User Ctx cb stacked) a v
          (subst (λ xs. Forall₂ (IsCopy ua fp) xs (list_of ua v)) one h) in
      let (s', done, at, _) =
        actuate_lem uh ua fp qs User Ctx cb stacked client me b c s others
          (record a { kind = kind }) a owner (strtod text) (valid (record a { kind = kind }) copy)
          found owned ready allowed in
      (s', bind_some e _ ∙ bind_some single _ ∙ bind_some done _, at)
