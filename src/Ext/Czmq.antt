-- ===== src/Ext/Czmq.antt =====
-- czmq and protobuf-c, as src/messages.c uses them. A message is a sequence of frames, and a frame
-- the bytes that it was made of.
use libnrm.Prelude.{◌≡◌, Option, some, List, [], ◌∷◌, ◌++◌}
use libnrm.Prelude.Int.{ℤ, pos}
use libnrm.Prelude.Bytes.{Bytes}

pub record Czmq : Type 1 where
  pub Zmsg : Type 0
  pub Zsock : Type 0
  pub zmsg_new : Zmsg
  -- zmsg_append and zmsg_addmem
  pub zmsg_append : Zmsg → Bytes → Zmsg
  -- `none` is NULL
  pub zmsg_pop : Zmsg → Option Bytes × Zmsg
  pub zmsg_send : Zsock → Zmsg → ℤ × Zsock
  pub zmsg_recv : Zsock → Option Zmsg × Zsock
  -- the frames that a message holds, in order
  pub frames : Zmsg → List Bytes
  pub frames-new : frames zmsg_new ≡ []
  pub frames-append :
      (zm : Zmsg) (frame : Bytes) → frames (zmsg_append zm frame) ≡ frames zm ++ frame ∷ []
  pub pop_frame :
      (zm : Zmsg) (frame : Bytes) (l : List Bytes)
      → frames zm ≡ frame ∷ l
      → (rest : Zmsg) × (zmsg_pop zm ≡ (some frame, rest)) × (frames rest ≡ l)

-- nrm__message__pack and nrm__message__unpack, which the build generates
pub record Protobuf (M : Type 0) : Type 0 where
  pub pack : M → Bytes
  pub unpack : Bytes → Option M
  pub unpack-pack : (msg : M) → unpack (pack msg) ≡ some msg

-- A pair of sockets within a program, as the control messages use it with the format spp: text and two
-- pointers. `none` is a call that waits.
pub record Pipes (P : Type 0) : Type 1 where
  pub Pipe : Type 0
  pub zsock_send : Pipe → Bytes → P → P → ℤ × Pipe
  pub zsock_recv : Pipe → Option (ℤ × (Bytes × P × P) × Pipe)
  -- what was sent and is not received yet, in order
  pub queue : Pipe → List (Bytes × P × P)
  pub send_lem :
      (k : Pipe) (s : Bytes) (p q : P)
      → (k1 : Pipe) × (zsock_send k s p q ≡ (pos 0, k1)) × (queue k1 ≡ queue k ++ (s, p, q) ∷ [])
  pub recv_lem :
      (k : Pipe) (m : Bytes × P × P) (l : List (Bytes × P × P))
      → queue k ≡ m ∷ l
      → (k1 : Pipe) × (zsock_recv k ≡ some (pos 0, m, k1)) × (queue k1 ≡ l)
