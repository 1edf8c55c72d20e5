-- ===== src/Message/Delivery.antt =====
-- What the receiving functions of src/messages.c find in the frames that the sending ones make.
use libnrm.Prelude.{◌>>=◌, ◌≡◌, ap, ◌∙◌, sym, some, [], ◌∷◌, ◌++◌, bind_some}
use mathlib.Core.List.{append_assoc}
use libnrm.Prelude.Bytes.{Bytes}
use libnrm.Ext.Czmq.{Czmq, Protobuf}
use libnrm.Message.{Message}
use libnrm.Message.Frames.{
  push_packed_frames, pop, pop_packed_frames, push_identity, pop_identity, push_topic, pop_topic,
  before_null, received, recv, recvfrom, sub,
}

module _ (cz : Czmq) {D : Type 0} (pb : Protobuf (Message D)) where
  -- The frames of a packed message: a delimiter and the data.
  push_packed_frames_lem :
      (zm : cz.Zmsg) (msg : Message D)
      → cz.frames (push_packed_frames cz pb zm msg) ≡ cz.frames zm ++ [] ∷ pb.pack msg ∷ []
  unfolding push_packed_frames
  push_packed_frames_lem zm msg =
      cz.frames-append (cz.zmsg_append zm []) (pb.pack msg)
      ∙ ap (λ l. l ++ pb.pack msg ∷ []) (cz.frames-append zm [])
      ∙ append_assoc (cz.frames zm) ([] ∷ []) (pb.pack msg ∷ [])

  pop_lem :
      (zm rest : cz.Zmsg) (frame : Bytes)
      → cz.zmsg_pop zm ≡ (some frame, rest)
      → pop cz pb zm ≡ some (frame, rest)
  unfolding pop
  pop_lem zm rest frame h = ap (λ r. r.0 >>= (λ f. some (f, r.1))) h

  pop_packed_frames_lem :
      (zm : cz.Zmsg) (msg : Message D)
      → cz.frames zm ≡ [] ∷ pb.pack msg ∷ []
      → (rest : cz.Zmsg) × (pop_packed_frames cz pb zm ≡ some (some msg, rest))
        × (cz.frames rest ≡ [])
  unfolding pop_packed_frames
  pop_packed_frames_lem zm msg h =
      let (rest, popped, has) = cz.pop_frame zm [] (pb.pack msg ∷ []) h in
      let (left, taken, ends) = cz.pop_frame rest (pb.pack msg) [] has in
      (
        left,
        bind_some (pop_lem zm rest [] popped) _
            ∙ bind_some (pop_lem rest left (pb.pack msg) taken) _
            ∙ ap (λ r. some (r, left)) (pb.unpack-pack msg),
        ends,
      )

  received_lem :
      (socket s : cz.Zsock) (zm : cz.Zmsg)
      → cz.zmsg_recv socket ≡ (some zm, s)
      → received cz pb socket ≡ some (zm, s)
  unfolding received
  received_lem socket s zm h = ap (λ r. r.0 >>= (λ m. some (m, r.1))) h

  -- nrm_msg_recv, on a socket that delivers the frames of nrm_msg_send, gives the message.
  recv-send :
      (socket s : cz.Zsock) (zm : cz.Zmsg) (msg : Message D)
      → cz.zmsg_recv socket ≡ (some zm, s)
      → cz.frames zm ≡ cz.frames (push_packed_frames cz pb cz.zmsg_new msg)
      → recv cz pb socket ≡ some (some msg, s)
  unfolding recv
  recv-send socket s zm msg h same =
      let (rest, popped, _) = pop_packed_frames_lem zm msg (
        same
        ∙ push_packed_frames_lem cz.zmsg_new msg
        ∙ ap (λ l. l ++ [] ∷ pb.pack msg ∷ []) cz.frames-new) in
      bind_some (received_lem socket s zm h) _ ∙ bind_some popped _

  -- nrm_msg_sendto addresses the frames of nrm_msg_send.
  sendto_lem :
      (msg : Message D) (uuid : Bytes)
      → cz.frames (push_packed_frames cz pb (push_identity cz pb cz.zmsg_new uuid) msg)
        ≡ uuid ∷ cz.frames (push_packed_frames cz pb cz.zmsg_new msg)
  unfolding push_identity
  sendto_lem msg uuid =
      push_packed_frames_lem (cz.zmsg_append cz.zmsg_new uuid) msg
      ∙ ap (λ l. l ++ [] ∷ pb.pack msg ∷ [])
          (cz.frames-append cz.zmsg_new uuid ∙ ap (λ l. l ++ uuid ∷ []) cz.frames-new)
      ∙ ap (λ l. uuid ∷ l)
          (sym (
            push_packed_frames_lem cz.zmsg_new msg
            ∙ ap (λ l. l ++ [] ∷ pb.pack msg ∷ []) cz.frames-new))

  -- nrm_msg_recvfrom, on a socket that delivers the frames of nrm_msg_send behind the sender's
  -- identity, gives the identity and the message.
  recvfrom-send :
      (socket s : cz.Zsock) (zm : cz.Zmsg) (uuid : Bytes) (msg : Message D)
      → cz.zmsg_recv socket ≡ (some zm, s)
      → cz.frames zm ≡ uuid ∷ cz.frames (push_packed_frames cz pb cz.zmsg_new msg)
      → recvfrom cz pb socket ≡ some (uuid, some msg, s)
  unfolding recvfrom pop_identity
  recvfrom-send socket s zm uuid msg h same =
      let (rest, first, has) =
        cz.pop_frame zm uuid (cz.frames (push_packed_frames cz pb cz.zmsg_new msg)) same in
      let (left, popped, _) = pop_packed_frames_lem rest msg (
        has
        ∙ push_packed_frames_lem cz.zmsg_new msg
        ∙ ap (λ l. l ++ [] ∷ pb.pack msg ∷ []) cz.frames-new) in
      let named : pop_identity cz pb zm ≡ some (uuid, rest) = pop_lem zm rest uuid first in
      bind_some (received_lem socket s zm h) _ ∙ bind_some named _ ∙ bind_some popped _

  -- nrm_msg_sub, on a socket that delivers the frames of nrm_msg_pub, gives the message, and the
  -- topic where the bytes behind its frame end the string there.
  sub-publish :
      (socket s : cz.Zsock) (zm : cz.Zmsg) (topic past : Bytes) (msg : Message D)
      → cz.zmsg_recv socket ≡ (some zm, s)
      → cz.frames zm ≡ cz.frames (push_packed_frames cz pb (push_topic cz pb cz.zmsg_new topic) msg)
      → before_null (topic ++ past) ≡ some topic
      → sub cz pb past socket ≡ some (topic, some msg, s)
  unfolding sub pop_topic push_topic
  sub-publish socket s zm topic past msg h same ends =
      let (rest, first, has) = cz.pop_frame zm topic ([] ∷ pb.pack msg ∷ []) (
        same
        ∙ push_packed_frames_lem (cz.zmsg_append cz.zmsg_new topic) msg
        ∙ ap (λ l. l ++ [] ∷ pb.pack msg ∷ [])
            (cz.frames-append cz.zmsg_new topic ∙ ap (λ l. l ++ topic ∷ []) cz.frames-new)) in
      let (left, popped, _) = pop_packed_frames_lem rest msg has in
      let named : pop_topic cz pb past zm ≡ some (topic, rest) =
        bind_some (pop_lem zm rest topic first) _ ∙ bind_some ends _ in
      bind_some (received_lem socket s zm h) _ ∙ bind_some named _ ∙ bind_some popped _
