-- ===== src/Control/Creation.antt =====
-- The creation of control loops from JSON in src/control/control.c and src/control/europar21.c. A result
-- `none` is a failed assertion. The memory that calloc gives is zero, and does not run out.
use libnrm.Prelude.{◌>>=◌, false, Option, none, some, List, [], ◌∷◌, if◌then◌else◌}
use libnrm.Prelude.Bytes.{Bytes, ascii, bytes_eq}
use libnrm.Error.{ErrorCode, success, einval}
use libnrm.Ext.Utarray.{Utarray}
use libnrm.Ext.Doubles.{Doubles}
use libnrm.Ext.Arithmetic.{Arithmetic}
use libnrm.Ext.Jansson.{Jansson}
use libnrm.Time.{Time}
use libnrm.Control.{Input, Output, Data, linearize}

module _ (ua : Utarray) (fp : Doubles) (ar : Arithmetic fp) (js : Jansson fp) where
  -- json_unpack with s of a member that is text
  unfoldable pub text_at : js.Json → Bytes → Option Bytes
  text_at object key = do v ← js.member object key; js.string_value v

  -- json_unpack with f of a member that is a real number
  unfoldable pub real_at : js.Json → Bytes → Option fp.Double
  real_at object key = do
    v ← js.member object key
    if js.is_real v then some (js.real_value v) else none

  -- The values that json_array_foreach goes through.
  unfoldable pub values : js.Json → List js.Json
  values object = elim (js.items object) [ none ↦ [] | some l ↦ l ]

  -- The loop over the inputs
  unfoldable pub inputs_of : Time → List js.Json → Option (List (Input ua fp ar))
  unfolding text_at
  inputs_of creationtime [] = some []
  inputs_of creationtime (value ∷ l) =
      let rest = inputs_of creationtime l in
      text_at value (ascii "sensor") >>= (λ sensor. text_at value (ascii "scope") >>= (λ scope.
        rest >>= (λ k. some (
          record {
            sensor_uuid = sensor;
            scope_uuid = scope;
            since = creationtime;
            timeserie = none;
          }
          ∷ k))))

  -- The loop over the outputs
  unfoldable pub outputs_of : List js.Json → Option (List (Output ua fp ar))
  outputs_of [] = some []
  outputs_of (value ∷ l) =
      let rest = outputs_of l in
      js.string_value value >>= (λ actuator.
        rest >>= (λ k. some (record { actuator_uuid = actuator; value = fp.zero } ∷ k)))

  -- nrm_control_europar21_create, with the clock's time
  unfoldable pub europar21_create : Time → js.Json → Option (ErrorCode × Option (Data ua fp ar))
  unfolding real_at values inputs_of outputs_of
  europar21_create creationtime config = do
    is_active ← js.member config (ascii "active")
    given_inputs ← js.member config (ascii "inputs")
    inputs ← inputs_of creationtime (values given_inputs)
    given_outputs ← js.member config (ascii "outputs")
    outputs ← outputs_of (values given_outputs)
    args ← js.member config (ascii "args")
    a ← real_at args (ascii "a")
    b ← real_at args (ascii "b")
    alpha ← real_at args (ascii "alpha")
    beta ← real_at args (ascii "beta")
    kl ← real_at args (ascii "Kl")
    t ← real_at args (ascii "t")
    e ← real_at args (ascii "e")
    tobj ← real_at args (ascii "tobj")
    min ← real_at args (ascii "min")
    max ← real_at args (ascii "max")
    some (
      success,
      some (record {
        active = elim (js.boolean_value is_active) [ none ↦ false | some on ↦ on ];
        a = a;
        b = b;
        alpha = alpha;
        beta = beta;
        kl = kl;
        t = t;
        e = e;
        tobj = tobj;
        pcap_max = max;
        pcap_min_l = linearize ua fp ar min a b alpha beta;
        pcap_max_l = linearize ua fp ar max a b alpha beta;
        prev_e = fp.zero;
        lastaction = creationtime;
        inputs = inputs;
        outputs = outputs;
      }),
    )

  abbrev pub Method : Type 0
  Method = Time → js.Json → Option (ErrorCode × Option (Data ua fp ar))

  -- nrm_control_methods, less the entry of zeros at its end
  unfoldable pub methods : List (Bytes × Method)
  methods = (ascii "europar21", europar21_create) ∷ []

  -- The loop of nrm_control_create
  unfoldable pub create_by :
      List (Bytes × Method) → Bytes → Time → js.Json → Option (ErrorCode × Option (Data ua fp ar))
  create_by [] name now config = some (einval, none)
  create_by ((known, make) ∷ l) name now config =
      let rest = create_by l name now config in
      if bytes_eq name known then make now config else rest

  -- nrm_control_create, with the control that there is then
  unfoldable pub create : Time → js.Json → Option (ErrorCode × Option (Data ua fp ar))
  unfolding text_at methods create_by
  create now config = do name ← text_at config (ascii "name"); create_by methods name now config
