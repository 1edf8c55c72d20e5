-- ===== src/Control/Action.antt =====
-- What nrm_control_europar21_action leaves in its output.
use libnrm.Prelude.{
  bind_some, ◌≡◌, if◌then◌else◌, refl, sym, subst, ap, ◌∙◌, Bool, true, false, ◌||◌, some, List,
  ◌∷◌, length, leb, arith, inl, inr, Bool-cases,
}
use libnrm.Error.{success}
use libnrm.Ext.Utarray.{Utarray, Memory}
use libnrm.Ext.Qsort.{Qsort}
use libnrm.Ext.Doubles.{Doubles, Le}
use libnrm.Ext.Arithmetic.{Arithmetic}
use libnrm.Time.{Time}
use libnrm.Timeserie.{Timeserie, Event, events_of}
use libnrm.Control.{
  Input, Output, Data, thresholding, linearize, error, action_l, delinearize, regulate, set_output,
  with_events, with_input, action, events2progress,
}
use libnrm.Control.Progress.{events2progress_lem}

module _ (ua : Utarray) (fp : Doubles) (ar : Arithmetic fp) where
  -- A value is kept between two bounds: itself where it is there, and else the bound that it passes.
  pub data IsKept (val min max : fp.Double) : fp.Double → Type 0 where
    inside : Le fp min val → Le fp val max → IsKept val min max val
    below : fp.lt val min ≡ true → IsKept val min max min
    above : fp.lt max val ≡ true → IsKept val min max max

  -- `thresholding`, with bounds in order
  pub thresholding_lem :
      (val min max : fp.Double)
      → Le fp min max
      → IsKept val min max (thresholding ua fp ar val min max)
  unfolding thresholding
  thresholding_lem val min max h =
      subst (IsKept val min max) (sym (ar.fmax_lem (ar.fmin val max) min)) (
        subst (λ y. IsKept val min max (if fp.lt y min then min else y)) (sym (ar.fmin_lem val max))
          (elim (Bool-cases (fp.lt max val)) [
            | inl high ↦ rw (high, h) (above high)
            | inr low ↦ elim (Bool-cases (fp.lt val min)) [
              | inl e ↦ rw (low, e) (below e)
              | inr e ↦ rw (low, e) (inside e low)
            ]
          ]))

  -- Progress that is too far from the one that is kept.
  abbrev pub is_far : Data ua fp ar → fp.Double → Bool
  is_far d prog = fp.lt prog (ar.mul (fp.sub ar.one d.e) d.kl) || fp.lt (ar.mul ar.two d.kl) prog

  -- The error that the loop stores: the distance from a part e of the greatest progress.
  abbrev pub error_of : Data ua fp ar → fp.Double → fp.Double
  error_of d prog = fp.sub (ar.mul (ar.mul d.e d.kl) (ar.add ar.one d.pcap_max_l)) prog

  -- Power on the linear scale, and back.
  abbrev pub on_scale : Data ua fp ar → fp.Double → fp.Double
  on_scale d pcap =
      ar.neg (ar.exp (ar.mul (ar.neg d.alpha) (fp.sub (ar.add (ar.mul d.a pcap) d.b) d.beta)))

  abbrev pub off_scale : Data ua fp ar → fp.Double → fp.Double
  off_scale d x =
      ar.div (fp.sub (ar.add (ar.div (ar.neg (ar.log (ar.neg x))) d.alpha) d.beta) d.b) d.a

  -- The step of a proportional-integral controller from a power cap, with the gains 3 / (Kl tobj) and
  -- t / (Kl tobj) and an interval of 1.
  abbrev pub controlled : Data ua fp ar → fp.Double → fp.Double → fp.Double
  controlled d newe pcap =
      let ki = ar.div ar.one (ar.div (ar.mul d.kl d.tobj) ar.three) in
      let kp = ar.div d.t (ar.mul d.kl d.tobj) in
      ar.add (fp.sub (ar.mul (ar.add (ar.mul ki ar.one) kp) newe) (ar.mul kp d.prev_e))
        (on_scale d pcap)

  -- What an active loop chooses from a power cap, with its error: full power, or the controller's step,
  -- kept between the bounds.
  pub data IsChosen (d : Data ua fp ar) (prog pcap : fp.Double)
      : fp.Double × fp.Double → Type 0 where
    full_power : is_far d prog ≡ true → IsChosen d prog pcap (d.pcap_max, fp.zero)
    bounded :
        (x : fp.Double)
        → is_far d prog ≡ false
        → IsKept (controlled d (error_of d prog) pcap) d.pcap_min_l d.pcap_max_l x
        → IsChosen d prog pcap (off_scale d x, error_of d prog)

  IsChosen-regulate :
      (d : Data ua fp ar) (prog pcap : fp.Double)
      → Le fp d.pcap_min_l d.pcap_max_l
      → IsChosen d prog pcap (regulate ua fp ar d prog pcap)
  unfolding regulate linearize error action_l delinearize
  IsChosen-regulate d prog pcap order = elim (Bool-cases (is_far d prog)) [
    | inl far ↦ rw (far, regulate) (full_power far)
    | inr near ↦
        rw (near, regulate)
          (bounded _ near (
            thresholding_lem (controlled d (error_of d prog) pcap) d.pcap_min_l d.pcap_max_l order))
  ]

  with_events_lem :
      (qs : Qsort ua) (d : Data ua fp ar) (now : Time) (ts : Timeserie ua fp.Double)
      (prog : fp.Double)
      → leb (ua.len (Event fp.Double) ts.events.array) 1 ≡ false
      → events2progress ua fp ar qs ts.events ≡ some prog
      → with_events ua fp ar qs d now (some ts) ≡ some (set_output ua fp ar d prog now d.outputs)
  unfolding with_events
  with_events_lem qs d now ts prog many found = rw (many, with_events) (bind_some found _)

  set_output_lem :
      (d : Data ua fp ar) (prog : fp.Double) (now : Time) (out : Output ua fp ar)
      (rest : List (Output ua fp ar))
      → d.active ≡ true
      → set_output ua fp ar d prog now (out ∷ rest) ≡ (
        success,
        record d {
          outputs = record out { value = (regulate ua fp ar d prog out.value).0 } ∷ rest;
          prev_e = (regulate ua fp ar d prog out.value).1;
          lastaction = now;
        },
      )
  unfolding set_output
  set_output_lem d prog now out rest active = rw (active, set_output) refl

  -- nrm_control_europar21_action of an active loop, with memory left, bounds in order, two events or more
  -- for its first input and an output: it returns 0 and computes the progress. Where that is below
  -- (1 - e) Kl or above 2 Kl, the first output becomes full power and the stored error 0; elsewhere the
  -- stored error becomes e Kl (1 + max) - progress, and the output the power of the controller's step
  -- from the last error and the last power, kept between the bounds. The time becomes that of the
  -- action, and all else stays.
  pub action_lem :
      (qs : Qsort ua) (m : Memory ua) (d : Data ua fp ar) (now : Time) (input : Input ua fp ar)
      (more : List (Input ua fp ar)) (out : Output ua fp ar) (rest : List (Output ua fp ar))
      → (ts : Timeserie ua fp.Double) (e e' : Event fp.Double) (es : List (Event fp.Double))
      → d.inputs ≡ input ∷ more
      → input.timeserie ≡ some ts
      → events_of ua fp.Double ts ≡ e ∷ e' ∷ es
      → d.outputs ≡ out ∷ rest
      → d.active ≡ true
      → Le fp d.pcap_min_l d.pcap_max_l
      → (prog value newe : fp.Double) × (events2progress ua fp ar qs ts.events ≡ some prog)
        × (action ua fp ar qs d now
            ≡ some (
              success,
              record d {
                outputs = record out { value = value } ∷ rest;
                prev_e = newe;
                lastaction = now;
              },
            ))
        × IsChosen d prog out.value (value, newe)
  unfolding action with_input
  action_lem qs m d now input more out rest ts e e' es i t h o active order =
      let (prog, w, found, same, up, is) = events2progress_lem ua fp ar qs m ts.events e e' es h in
      (
        prog,
        (regulate ua fp ar d prog out.value).0,
        (regulate ua fp ar d prog out.value).1,
        found,
        ap (with_input ua fp ar qs d now) i
            ∙ ap (with_events ua fp ar qs d now) t
            ∙ with_events_lem qs d now ts prog
                (ground (arith, ua.len-contents (Event fp.Double) ts.events.array, ap length h))
                found
            ∙ ap (λ l. some (set_output ua fp ar d prog now l)) o
            ∙ ap some (set_output_lem d prog now out rest active),
        IsChosen-regulate d prog out.value order,
      )
