-- ===== src/Control.antt =====
-- src/control/europar21.c: the control loop that keeps a program's progress by a power cap. The
-- vectors of inputs and outputs, whose elements the code writes through their pointers, are lists;
-- `active` is a truth value. Logging is left out, and the clock's time is an argument.
pub mod Creation
pub mod Created
pub mod CreatedTests
pub mod Progress
pub mod Action
pub mod Tests
use libnrm.Prelude.{
  ◌>>=◌, ℕ, zero, suc, ◌+◌, ◌-◌, ◌/◌, ◌%◌, ◌≡◌, Bool, true, false, ◌||◌, Option, none, some, List,
  [], ◌∷◌, map, leb, ◌==◌, if◌then◌else◌,
}
use libnrm.Prelude.Int.{ℤ}
use libnrm.Prelude.Bytes.{Bytes}
use libnrm.Error.{ErrorCode, success, einval}
use libnrm.Ext.Utarray.{Utarray}
use libnrm.Ext.Qsort.{Qsort}
use libnrm.Ext.Doubles.{Doubles}
use libnrm.Ext.Arithmetic.{Arithmetic}
use libnrm.Time.{Time, diff}
use libnrm.Timeserie.{Timeserie, Event}
use libnrm.Vector
use libnrm.Vector.{Vector, Ptr}
use libnrm.Vector.Sorting.{sort, sort_double_cmp}

module _ (ua : Utarray) (fp : Doubles) (ar : Arithmetic fp) where
  abbrev Double : Type 0
  Double = fp.Double

  -- nrm_control_input_t and nrm_control_output_t
  pub record Input : Type 0 where
    pub sensor_uuid : Bytes
    pub scope_uuid : Bytes
    pub since : Time
    pub timeserie : Ptr (Timeserie ua Double)

  pub record Output : Type 0 where
    pub actuator_uuid : Bytes
    pub value : Double

  -- nrm_control_europar21_data_t
  pub record Data : Type 0 where
    pub active : Bool
    pub a : Double
    pub b : Double
    pub alpha : Double
    pub beta : Double
    pub kl : Double
    pub t : Double
    pub e : Double
    pub tobj : Double
    pub pcap_max : Double
    pub pcap_min_l : Double
    pub pcap_max_l : Double
    pub prev_e : Double
    pub lastaction : Time
    pub inputs : List Input
    pub outputs : List Output

  unfoldable pub linearize : Double → Double → Double → Double → Double → Double
  linearize value a b alpha beta =
      ar.neg (ar.exp (ar.mul (ar.neg alpha) (fp.sub (ar.add (ar.mul a value) b) beta)))

  unfoldable pub error : Double → Double → Double → Double → Double
  error e kl pcap_max_l prog = fp.sub (ar.mul (ar.mul e kl) (ar.add ar.one pcap_max_l)) prog

  unfoldable pub thresholding : Double → Double → Double → Double
  thresholding val min max = ar.fmax (ar.fmin val max) min

  unfoldable pub action_l : Double → Double → Double → Double → Double → Double → Double
  action_l ki delta_ti kp e prev_e prev_pcap_l =
      ar.add (fp.sub (ar.mul (ar.add (ar.mul ki delta_ti) kp) e) (ar.mul kp prev_e)) prev_pcap_l

  unfoldable pub delinearize : Double → Double → Double → Double → Double → Double
  delinearize value a b alpha beta =
      ar.div (fp.sub (ar.add (ar.div (ar.neg (ar.log (ar.neg value))) alpha) beta) b) a

  -- nrm_control_europar21_getargs: the inputs ask for the events since the last action
  unfoldable pub asked_since : Time → Input → Input
  asked_since time input = record input { since = time }

  unfoldable pub getargs : Data → Data
  unfolding asked_since
  getargs d = record d { inputs = map (asked_since d.lastaction) d.inputs }

  -- One frequency of nrm_control_europar21_events2progress.
  unfoldable pub frequency : Event Double → Event Double → Double
  frequency prev_e e = ar.div e.value (ar.mul (ar.of_int (diff prev_e.time e.time)) ar.nano)

  -- Its loop, from position `i`; a NULL element would be read through.
  unfoldable pub push_frequencies :
      ℕ → ℕ → Vector ua (Event Double) → Event Double → Vector ua Double → Option (Vector ua Double)
  unfolding frequency
  push_frequencies zero i events prev_e diffs = some diffs
  push_frequencies (suc rounds) i events prev_e diffs = do
    out ← (Vector.get ua (some events) i (some none)).1
    e ← out
    push_frequencies rounds (i + 1) events e (Vector.append_one ua diffs (frequency prev_e e)).1

  -- The element at a position, which the code reads without a test.
  unfoldable pub read : {A : Type 0} → Vector ua A → ℕ → Option A
  read v i = do out ← (Vector.get ua (some v) i (some none)).1; out

  -- The median of `n` sorted numbers.
  unfoldable pub median : ℕ → Vector ua Double → Option Double
  unfolding read
  median n diffs =
      if (n % 2) == 1
      then read diffs (n / 2)
      else (read diffs (n / 2 - 1)
          >>= (λ a. read diffs (n / 2) >>= (λ b. some (ar.div (ar.add a b) ar.two))))

  -- nrm_control_europar21_events2progress
  unfoldable pub events2progress : Qsort ua → Vector ua (Event Double) → Option Double
  unfolding push_frequencies median read
  events2progress qs events = do
    made ← (Vector.create ua (some none) 8).1
    diffs ← made
    prev_e ← read events 0
    full ← push_frequencies (ua.len (Event Double) events.array - 1) 1 events prev_e diffs
    sorted ← (sort ua qs (some full) (some (sort_double_cmp fp))).1
    median (ua.len (Event Double) events.array - 1) sorted

  -- The part of nrm_control_europar21_action that chooses the new power cap, for an active loop.
  unfoldable pub regulate : Data → Double → Double → Double × Double
  unfolding linearize error action_l thresholding delinearize
  regulate d prog pcap =
      if fp.lt prog (ar.mul (fp.sub ar.one d.e) d.kl) || fp.lt (ar.mul ar.two d.kl) prog
      then (d.pcap_max, fp.zero)
      else (let pcap_l = linearize pcap d.a d.b d.alpha d.beta in
          let newe = error d.e d.kl d.pcap_max_l prog in
          let act_l =
            action_l (ar.div ar.one (ar.div (ar.mul d.kl d.tobj) ar.three)) ar.one
              (ar.div d.t (ar.mul d.kl d.tobj)) newe d.prev_e pcap_l in
          (delinearize (thresholding act_l d.pcap_min_l d.pcap_max_l) d.a d.b d.alpha d.beta, newe))

  -- What nrm_control_europar21_action does to its first output, given the progress.
  unfoldable pub set_output : Data → Double → Time → List Output → ErrorCode × Data
  unfolding regulate
  set_output d prog now [] = (einval, d)
  set_output d prog now (out ∷ rest) =
      if d.active
      then (let (value, newe) = regulate d prog out.value in
          (
            success,
            record d {
              outputs = record out { value = value } ∷ rest;
              prev_e = newe;
              lastaction = now;
            },
          ))
      else (success, record d { lastaction = now })

  -- Its part on the events of the first input; a NULL time series has a NULL vector.
  unfoldable pub with_events :
      Qsort ua → Data → Time → Ptr (Timeserie ua Double) → Option (ErrorCode × Data)
  unfolding set_output events2progress
  with_events qs d now none = some (success, d)
  with_events qs d now (some ts) =
      if leb (ua.len (Event Double) ts.events.array) 1
      then some (success, d)
      else (events2progress qs ts.events >>= (λ prog. some (set_output d prog now d.outputs)))

  unfoldable pub with_input : Qsort ua → Data → Time → List Input → Option (ErrorCode × Data)
  unfolding with_events
  with_input qs d now [] = some (einval, d)
  with_input qs d now (input ∷ rest) = with_events qs d now input.timeserie

  -- nrm_control_europar21_action, on the vectors that nrm_control_europar21_getargs handed out
  unfoldable pub action : Qsort ua → Data → Time → Option (ErrorCode × Data)
  unfolding with_input
  action qs d now = with_input qs d now d.inputs
