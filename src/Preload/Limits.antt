-- ===== src/Preload/Limits.antt =====
-- What nrm_ompt_send_event of src/preloads/ompt/nrm_omp_callbacks.c sends.
use libnrm.Prelude.{
  ◌>>=◌, ℕ, zero, suc, ◌+◌, ◌≡◌, refl, true, Option, some, List, [], ◌∷◌, length, arith, Bool-cases,
  Option-cases, inl, inr,
}
use libnrm.Prelude.Int.{ltb_ℤ}
use libnrm.Ext.Utarray.{Utarray}
use libnrm.Ext.Qsort.{Qsort}
use libnrm.Ext.Doubles.{Doubles}
use libnrm.Ext.Arithmetic.{Arithmetic}
use libnrm.Time.{Time, diff}
use libnrm.Scope.{Scope}
use libnrm.Vector.{Ptr}
use libnrm.State.{Sensor}
use libnrm.Client.{Transport}
use libnrm.Preload.{Limiter, int64, send, ompt_send_event, calls}

-- Events, by when they are sent and how many calls they stand for.
abbrev pub Batches : Type 0
Batches = List (Time × ℕ)

abbrev pub total : Batches → ℕ
total [] = 0
total ((t, n) ∷ k) = n + total k

-- More than the limit lies between an event and the one before.
abbrev pub IsSpaced : ℕ → Time → Batches → Type 0
IsSpaced ratelimit last [] = Unit {0}
IsSpaced ratelimit last ((t, n) ∷ k) =
    (ltb_ℤ (int64 ratelimit) (diff last t) ≡ true) × IsSpaced ratelimit t k

abbrev pub last_of : Time → Batches → Time
last_of last [] = last
last_of last ((t, n) ∷ k) = last_of t k

module _ (ua : Utarray) (fp : Doubles) (ar : Arithmetic fp) (qs : Qsort ua)
    (net : Transport fp.Double) (sensor : Ptr Sensor) (scope : Ptr Scope) where
  -- The number of so many calls, in floating point.
  abbrev pub counted : ℕ → fp.Double
  counted zero = fp.zero
  counted (suc n) = ar.add (counted n) ar.one

  abbrev pub send_batches : net.World → Batches → Option net.World
  send_batches w [] = some w
  send_batches w ((t, n) ∷ k) =
      send ua fp ar qs net sensor scope w t (counted n) >>= (λ v. send_batches v k)

  abbrev state : ℕ → Time → net.World → Limiter ua fp ar qs net sensor scope
  state n last w = record { global_count = counted n; last_send = last; world = w }

  -- Calls of nrm_ompt_send_event, from a state that counts `held` calls: the client sends events whose
  -- values count the calls, each call in one event or in the count that is left, and events
  -- are more than nrm_ratelimit nanoseconds from the one before.
  pub calls_lem :
      (ratelimit held : ℕ) (last : Time) (w : net.World) (nows : List Time)
      → (k : Batches) × (left : ℕ) × (calls ua fp ar qs net sensor scope ratelimit
            (record { global_count = counted held; last_send = last; world = w })
            nows
          ≡ (send_batches w k >>= (λ v.
              some
                (record { global_count = counted left; last_send = last_of last k; world = v }))))
        × (total k + left ≡ held + length nows)
        × IsSpaced ratelimit last k
  unfolding calls ompt_send_event
  calls_lem ratelimit held last w [] = ([], held, refl, omega arith, tt)
  calls_lem ratelimit held last w (now ∷ nows) =
      elim (Bool-cases (ltb_ℤ (int64 ratelimit) (diff last now))) [
        | inr early ↦
            (let (k, left, done, sum, spaced) = calls_lem ratelimit (suc held) last w nows in
              (k, left, rw early done, omega (arith, sum), spaced))
        | inl late ↦
            elim (Option-cases (send ua fp ar qs net sensor scope w now (counted (suc held)))) [
              | inl failed ↦ (
                (now, suc held) ∷ [],
                length nows,
                rw (late, failed) refl,
                omega arith,
                (late, tt),
              )
              | inr (v, sent) ↦
                  (let (k, left, done, sum, spaced) = calls_lem ratelimit 0 now v nows in
                    (
                      (now, suc held) ∷ k,
                      left,
                      rw (late, sent) done,
                      omega (arith, sum),
                      (late, spaced),
                    ))
            ]
      ]
