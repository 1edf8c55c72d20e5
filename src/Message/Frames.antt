-- ===== src/Message/Frames.antt =====
-- src/messages.c: the frames that a message is on the wire. `none` as a whole result is a failed
-- assertion or a read that C does not define. Allocation succeeds.
use libnrm.Prelude.{◌>>=◌, Option, none, some, [], ◌∷◌, ◌++◌}
use libnrm.Prelude.Int.{ℤ}
use libnrm.Prelude.Bytes.{Bytes}
use libnrm.Ext.Czmq.{Czmq, Protobuf}
use libnrm.Message.{Message}
use libnrm.Prelude.{zero, suc}
use libnrm.Vector.{Ptr}

-- The bytes that a string function reads from an address: those before the null byte.
unfoldable pub before_null : Bytes → Option Bytes
before_null [] = none
before_null (zero ∷ l) = some []
before_null (suc n ∷ l) = let rest = before_null l in (rest >>= (λ r. some (suc n ∷ r)))

module _ (cz : Czmq) {D : Type 0} (pb : Protobuf (Message D)) where
  -- nrm_msg_push_packed_frames
  unfoldable pub push_packed_frames : cz.Zmsg → Message D → cz.Zmsg
  push_packed_frames zm msg = cz.zmsg_append (cz.zmsg_append zm []) (pb.pack msg)

  -- zmsg_pop, of a frame that the code then reads without a test or asserts to be there
  unfoldable pub pop : cz.Zmsg → Option (Bytes × cz.Zmsg)
  pop zm = (cz.zmsg_pop zm).0 >>= (λ frame. some (frame, (cz.zmsg_pop zm).1))

  -- nrm_msg_pop_packed_frames: the first frame is asserted to be empty
  unfoldable pub pop_packed_frames : cz.Zmsg → Option (Ptr (Message D) × cz.Zmsg)
  unfolding pop
  pop_packed_frames zm = do
    first ← pop zm
    second ← elim first.0 [ [] ↦ pop first.1 | b ∷ l ↦ none ]
    some (pb.unpack second.0, second.1)

  -- nrm_msg_push_identity and nrm_msg_push_topic
  unfoldable pub push_identity : cz.Zmsg → Bytes → cz.Zmsg
  push_identity zm uuid = cz.zmsg_append zm uuid

  unfoldable pub push_topic : cz.Zmsg → Bytes → cz.Zmsg
  push_topic zm topic = cz.zmsg_append zm topic

  -- nrm_msg_pop_identity
  unfoldable pub pop_identity : cz.Zmsg → Option (Bytes × cz.Zmsg)
  unfolding pop
  pop_identity zm = pop zm

  -- nrm_msg_pop_topic: the string goes on into `past`, the memory behind the frame
  unfoldable pub pop_topic : Bytes → cz.Zmsg → Option (Bytes × cz.Zmsg)
  unfolding pop
  pop_topic past zm = do
    first ← pop zm
    topic ← before_null (first.0 ++ past)
    some (topic, first.1)

  -- nrm_msg_send, nrm_msg_sendto and nrm_msg_pub
  unfoldable send : cz.Zsock → Message D → ℤ × cz.Zsock
  unfolding push_packed_frames
  send socket msg = cz.zmsg_send socket (push_packed_frames cz.zmsg_new msg)

  unfoldable sendto : cz.Zsock → Message D → Bytes → ℤ × cz.Zsock
  unfolding push_packed_frames push_identity
  sendto socket msg uuid =
      cz.zmsg_send socket (push_packed_frames (push_identity cz.zmsg_new uuid) msg)

  unfoldable publish : cz.Zsock → Bytes → Message D → ℤ × cz.Zsock
  unfolding push_packed_frames push_topic
  publish socket topic msg =
      cz.zmsg_send socket (push_packed_frames (push_topic cz.zmsg_new topic) msg)

  -- zmsg_recv with the assertion behind it
  unfoldable pub received : cz.Zsock → Option (cz.Zmsg × cz.Zsock)
  received socket = (cz.zmsg_recv socket).0 >>= (λ zm. some (zm, (cz.zmsg_recv socket).1))

  -- nrm_msg_recv, nrm_msg_recvfrom and nrm_msg_sub
  unfoldable pub recv : cz.Zsock → Option (Ptr (Message D) × cz.Zsock)
  unfolding received pop_packed_frames
  recv socket = do got ← received socket; out ← pop_packed_frames got.0; some (out.0, got.1)

  unfoldable pub recvfrom : cz.Zsock → Option (Bytes × Ptr (Message D) × cz.Zsock)
  unfolding received pop_packed_frames pop_identity
  recvfrom socket = do
    got ← received socket
    from ← pop_identity got.0
    out ← pop_packed_frames from.1
    some (from.0, out.0, got.1)

  unfoldable pub sub : Bytes → cz.Zsock → Option (Bytes × Ptr (Message D) × cz.Zsock)
  unfolding received pop_packed_frames pop_topic
  sub past socket = do
    got ← received socket
    named ← pop_topic past got.0
    out ← pop_packed_frames named.1
    some (named.0, out.0, got.1)
