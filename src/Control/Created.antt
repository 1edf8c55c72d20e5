-- ===== src/Control/Created.antt =====
-- Which control loop a configuration like examples/config.json makes.
use libnrm.Prelude.{
  ◌>>=◌, bind_some, ◌≡◌, refl, ap, ◌∙◌, Bool, true, Option, none, some, List, [], ◌∷◌, map,
  if◌then◌else◌,
}
use mathlib.Core.List.{Forall₂}
use libnrm.Prelude.Bytes.{Bytes, ascii, bytes_eq}
use libnrm.Error.{success}
use libnrm.Ext.Utarray.{Utarray}
use libnrm.Ext.Doubles.{Doubles}
use libnrm.Ext.Arithmetic.{Arithmetic}
use libnrm.Ext.Jansson.{Jansson}
use libnrm.Time.{Time}
use libnrm.Control.{Input, Output, Data, linearize}
use libnrm.Control.Creation.{
  text_at, real_at, values, inputs_of, outputs_of, europar21_create, create_by, methods, create,
}

module _ (ua : Utarray) (fp : Doubles) (ar : Arithmetic fp) (js : Jansson fp) where
  -- What a configuration says: sensors with scopes, actuators, and ten numbers.
  pub record Configuration : Type 0 where
    pub active : Bool
    pub inputs : List (Bytes × Bytes)
    pub outputs : List Bytes
    pub a : fp.Double
    pub b : fp.Double
    pub alpha : fp.Double
    pub beta : fp.Double
    pub kl : fp.Double
    pub t : fp.Double
    pub e : fp.Double
    pub tobj : fp.Double
    pub min : fp.Double
    pub max : fp.Double

  -- A member of an object has a property.
  abbrev pub HasMember : (js.Json → Type 0) → js.Json → Bytes → Type 0
  HasMember P object key = (v : js.Json) × (js.member object key ≡ some v) × P v

  abbrev pub IsTextOf : Bytes → js.Json → Type 0
  IsTextOf s v = js.string_value v ≡ some s

  abbrev pub IsRealOf : fp.Double → js.Json → Type 0
  IsRealOf d v = (js.is_real v ≡ true) × (js.real_value v ≡ d)

  abbrev pub IsInputOf : js.Json → Bytes × Bytes → Type 0
  IsInputOf v i =
      HasMember (IsTextOf i.0) v (ascii "sensor") × HasMember (IsTextOf i.1) v (ascii "scope")

  abbrev pub IsArrayOf : {A : Type 0} → (js.Json → A → Type 0) → List A → js.Json → Type 0
  IsArrayOf {A} R l v = (items : List js.Json) × (js.items v ≡ some items) × Forall₂ R items l

  pub record IsArgsOf (c : Configuration) (args : js.Json) : Type 0 where
    pub a : HasMember (IsRealOf c.a) args (ascii "a")
    pub b : HasMember (IsRealOf c.b) args (ascii "b")
    pub alpha : HasMember (IsRealOf c.alpha) args (ascii "alpha")
    pub beta : HasMember (IsRealOf c.beta) args (ascii "beta")
    pub kl : HasMember (IsRealOf c.kl) args (ascii "Kl")
    pub t : HasMember (IsRealOf c.t) args (ascii "t")
    pub e : HasMember (IsRealOf c.e) args (ascii "e")
    pub tobj : HasMember (IsRealOf c.tobj) args (ascii "tobj")
    pub min : HasMember (IsRealOf c.min) args (ascii "min")
    pub max : HasMember (IsRealOf c.max) args (ascii "max")

  pub record IsConfiguration (c : Configuration) (config : js.Json) : Type 0 where
    pub name : HasMember (IsTextOf (ascii "europar21")) config (ascii "name")
    pub active : HasMember (λ v. js.boolean_value v ≡ some c.active) config (ascii "active")
    pub inputs : HasMember (IsArrayOf IsInputOf c.inputs) config (ascii "inputs")
    pub outputs : HasMember (IsArrayOf (λ v s. IsTextOf s v) c.outputs) config (ascii "outputs")
    pub args : HasMember (IsArgsOf c) config (ascii "args")

  -- The control loop of a configuration, made at a time.
  abbrev pub loop_of : Time → Configuration → Data ua fp ar
  loop_of now c = record {
    active = c.active;
    a = c.a;
    b = c.b;
    alpha = c.alpha;
    beta = c.beta;
    kl = c.kl;
    t = c.t;
    e = c.e;
    tobj = c.tobj;
    pcap_max = c.max;
    pcap_min_l = linearize ua fp ar c.min c.a c.b c.alpha c.beta;
    pcap_max_l = linearize ua fp ar c.max c.a c.b c.alpha c.beta;
    prev_e = fp.zero;
    lastaction = now;
    inputs =
        map (λ i. record { sensor_uuid = i.0; scope_uuid = i.1; since = now; timeserie = none })
          c.inputs;
    outputs = map (λ u. record { actuator_uuid = u; value = fp.zero }) c.outputs;
  }

  text_lem :
      {s : Bytes} (object : js.Json) (key : Bytes)
      → HasMember (IsTextOf s) object key
      → text_at ua fp ar js object key ≡ some s
  unfolding text_at
  text_lem object key (v, e, r) = bind_some e js.string_value ∙ r

  real_at_lem :
      {d : fp.Double} (object : js.Json) (key : Bytes)
      → HasMember (IsRealOf d) object key
      → real_at ua fp ar js object key ≡ some d
  unfolding real_at
  real_at_lem object key (v, e, (is, r)) =
      bind_some e (λ v. if js.is_real v then some (js.real_value v) else none) ∙ rw is (ap some r)

  inputs_lem :
      (now : Time) (items : List js.Json) (l : List (Bytes × Bytes))
      → Forall₂ IsInputOf items l
      → inputs_of ua fp ar js now items
        ≡ some (
            map
              (λ i. record { sensor_uuid = i.0; scope_uuid = i.1; since = now; timeserie = none })
              l)
  unfolding inputs_of
  inputs_lem now [] [] Forall₂.nil = refl
  inputs_lem now [] (i ∷ l) h = elim h [ ]
  inputs_lem now (v ∷ items) [] h = elim h [ ]
  inputs_lem now (v ∷ items) (i ∷ l) (Forall₂.cons (sensor, scope) h) =
      bind_some (text_lem v (ascii "sensor") sensor)
        (λ s. text_at ua fp ar js v (ascii "scope") >>= (λ o. rest >>= (λ k. some (input s o ∷ k))))
      ∙ bind_some (text_lem v (ascii "scope") scope) (λ o. rest >>= (λ k. some (input i.0 o ∷ k)))
      ∙ bind_some (inputs_lem now items l h) (λ k. some (input i.0 i.1 ∷ k))
    where
      rest : Option (List (Input ua fp ar))
      rest = inputs_of ua fp ar js now items

      input : Bytes → Bytes → Input ua fp ar
      input s o = record { sensor_uuid = s; scope_uuid = o; since = now; timeserie = none }

  outputs_lem :
      (items : List js.Json) (l : List Bytes)
      → Forall₂ (λ v s. IsTextOf s v) items l
      → outputs_of ua fp ar js items
        ≡ some (map (λ u. record { actuator_uuid = u; value = fp.zero }) l)
  unfolding outputs_of
  outputs_lem [] [] Forall₂.nil = refl
  outputs_lem [] (s ∷ l) h = elim h [ ]
  outputs_lem (v ∷ items) [] h = elim h [ ]
  outputs_lem (v ∷ items) (s ∷ l) (Forall₂.cons e h) =
      bind_some e (λ u. rest >>= (λ k. some (output u ∷ k)))
      ∙ bind_some (outputs_lem items l h) (λ k. some (output s ∷ k))
    where
      rest : Option (List (Output ua fp ar))
      rest = outputs_of ua fp ar js items

      output : Bytes → Output ua fp ar
      output u = record { actuator_uuid = u; value = fp.zero }

  -- Ten numbers are unpacked one after the other.
  numbers_lem :
      {R : Type 0} (c : Configuration) (args : js.Json)
      → IsArgsOf c args
      → (f : fp.Double
          → fp.Double
          → fp.Double
          → fp.Double
          → fp.Double
          → fp.Double
          → fp.Double
          → fp.Double
          → fp.Double
          → fp.Double
          → Option R)
      → (real_at ua fp ar js args (ascii "a") >>= (λ a.
          real_at ua fp ar js args (ascii "b") >>= (λ b.
            real_at ua fp ar js args (ascii "alpha") >>= (λ alpha.
              real_at ua fp ar js args (ascii "beta") >>= (λ beta.
                real_at ua fp ar js args (ascii "Kl") >>= (λ kl.
                  real_at ua fp ar js args (ascii "t") >>= (λ t.
                    real_at ua fp ar js args (ascii "e") >>= (λ e.
                      real_at ua fp ar js args (ascii "tobj") >>= (λ tobj.
                        real_at ua fp ar js args (ascii "min") >>= (λ min.
                          real_at ua fp ar js args (ascii "max")
                          >>= (λ max. f a b alpha beta kl t e tobj min max)))))))))))
        ≡ f c.a c.b c.alpha c.beta c.kl c.t c.e c.tobj c.min c.max
  numbers_lem c args h f =
      rw
        (
          real_at_lem args (ascii "a") h.a,
          real_at_lem args (ascii "b") h.b,
          real_at_lem args (ascii "alpha") h.alpha,
          real_at_lem args (ascii "beta") h.beta,
          real_at_lem args (ascii "Kl") h.kl,
          real_at_lem args (ascii "t") h.t,
          real_at_lem args (ascii "e") h.e,
          real_at_lem args (ascii "tobj") h.tobj,
          real_at_lem args (ascii "min") h.min,
          real_at_lem args (ascii "max") h.max,
        )
        refl

  values_lem :
      {A : Type 0} {R : js.Json → A → Type 0} {l : List A} (v : js.Json)
      → (h : IsArrayOf R l v) → values ua fp ar js v ≡ h.0
  unfolding values
  values_lem v (items, e, h) = ap (λ o. elim o [ none ↦ [] | some k ↦ k ]) e

  europar21_lem :
      (now : Time) (c : Configuration) (config : js.Json)
      → IsConfiguration c config
      → europar21_create ua fp ar js now config ≡ some (success, some (loop_of now c))
  unfolding europar21_create
  europar21_lem now c config h =
      let (is_active, active, on) = h.active in
      let (given_inputs, inputs, in_array) = h.inputs in
      let (given_outputs, outputs, out_array) = h.outputs in
      let (args, given_args, numbers) = h.args in
      rw
        (
          active,
          on,
          inputs,
          values_lem given_inputs in_array,
          inputs_lem now in_array.0 c.inputs in_array.2,
          outputs,
          values_lem given_outputs out_array,
          outputs_lem out_array.0 c.outputs out_array.2,
          given_args,
        )
        (numbers_lem c args numbers _)

  -- nrm_control_create, given a configuration of a europar21 loop with its numbers as real numbers, makes
  -- the loop that it says, with the time as the last action.
  pub create_lem :
      (now : Time) (c : Configuration) (config : js.Json)
      → IsConfiguration c config
      → create ua fp ar js now config ≡ some (success, some (loop_of now c))
  unfolding create create_by methods bytes_eq
  create_lem now c config h =
      bind_some (text_lem config (ascii "name") h.name)
        (λ name. create_by ua fp ar js (methods ua fp ar js) name now config)
      ∙ europar21_lem now c config h
