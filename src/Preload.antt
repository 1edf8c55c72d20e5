-- ===== src/Preload.antt =====
-- src/preloads/ompt: how the library that OpenMP programs load counts their work, and sends the counts to
-- the daemon. The clock's time is an argument. One thread is in nrm_ompt_send_event at a time, by its lock.
-- A result `none` is a failed assertion of the client's calls.
pub mod Limits
pub mod Tests
use libnrm.Prelude.{◌>>=◌, ℕ, ◌-◌, ◌^◌, Option, none, some, List, [], ◌∷◌, ltb, if◌then◌else◌}
use libnrm.Prelude.Int.{ℤ, pos, negsuc, ltb_ℤ}
use libnrm.Error.{ErrorCode}
use libnrm.Ext.Utarray.{Utarray}
use libnrm.Ext.Qsort.{Qsort}
use libnrm.Ext.Doubles.{Doubles}
use libnrm.Ext.Arithmetic.{Arithmetic}
use libnrm.Time.{Time, diff}
use libnrm.Scope.{Scope}
use libnrm.Vector.{Ptr}
use libnrm.State.{Sensor}
use libnrm.Client.{Transport}
use libnrm.Client.Sending.{send_event}

-- An unsigned 64-bit number as an int64_t.
unfoldable pub int64 : ℕ → ℤ
int64 n = if ltb n (2 ^ 63) then pos n else negsuc (2 ^ 64 - n - 1)

module _ (ua : Utarray) (fp : Doubles) (ar : Arithmetic fp) (qs : Qsort ua)
    (net : Transport fp.Double) (global_sensor : Ptr Sensor) (global_scope : Ptr Scope) where
  -- global_count and last_send, with what the client's calls change
  pub record Limiter : Type 0 where
    pub global_count : fp.Double
    pub last_send : Time
    pub world : net.World

  -- nrm_ompt_ratelimit_init, with the count that a global variable starts with
  unfoldable pub ratelimit_init : net.World → Time → Limiter
  ratelimit_init w now = record { global_count = fp.zero; last_send = now; world = w }

  -- nrm_client_send_event, whose code is not looked at
  unfoldable pub send : net.World → Time → fp.Double → Option net.World
  send w now value = do r ← send_event ua fp qs net w now global_sensor global_scope value; some r.1

  -- nrm_ompt_send_event, which nrm_ompt_callback_dispatch_cb calls
  unfoldable pub ompt_send_event : ℕ → Limiter → Time → Option Limiter
  unfolding send int64
  ompt_send_event ratelimit l now =
      let count = ar.add l.global_count ar.one in
      if ltb_ℤ (int64 ratelimit) (diff l.last_send now)
      then (send l.world now count
          >>= (λ w. some (record { global_count = fp.zero; last_send = now; world = w })))
      else some (record l { global_count = count })

  -- Several calls, each with the time that it reads.
  unfoldable pub calls : ℕ → Limiter → List Time → Option Limiter
  unfolding ompt_send_event
  calls ratelimit l [] = some l
  calls ratelimit l (now ∷ nows) = do
    after ← ompt_send_event ratelimit l now
    calls ratelimit after nows

  -- nrm_ompt_ratelimit_finalize
  unfoldable pub ratelimit_finalize : Limiter → Time → Option Limiter
  unfolding send
  ratelimit_finalize l now =
      if fp.lt fp.zero l.global_count
      then (send l.world now l.global_count
          >>= (λ w. some (record l { last_send = now; world = w })))
      else some (record l { last_send = now })
