-- ===== src/Client/Connected.antt =====
-- A client's request and the daemon's answer, over the link of Client/Link.antt.
use libnrm.Prelude.{
  ◌>>=◌, bind_some, ◌≡◌, refl, ap, ◌∙◌, true, some, List, [], ◌∷◌, ◌++◌, if◌then◌else◌,
}
use libnrm.Prelude.Int.{pos}
use libnrm.Prelude.Bytes.{Bytes}
use libnrm.Ext.Models.{same_ℤ}
use libnrm.Ext.Uthash.{Uthash}
use libnrm.Ext.Utarray.{Utarray}
use libnrm.Ext.Qsort.{Qsort}
use libnrm.Ext.Doubles.{Doubles}
use libnrm.Message.{Message, is_reply}
use libnrm.Role.{Broker, rpc_handler, pipe_handler, role_recv}
use libnrm.Server.{Server, Callbacks, Request, Reply, role_callback}
use libnrm.Server.Wire.{request_of, message_of}
use libnrm.Client.Calls.{exchange}
use libnrm.Client.Link.{Link, deliver_one, deliver, serve, serve_all, send, recv, link}

module _ (uh : Uthash Bytes) (ua : Utarray) (fp : Doubles) (qs : Qsort ua) (User Ctx : Type 0)
    (cb : Callbacks uh ua fp User) (stacked : Bytes) where
  abbrev Msg : Type 0
  Msg = Message fp.Double

  -- A link on which nothing is under way.
  abbrev pub idle :
      Broker fp.Double Ctx
      → Server uh ua fp User
      → Bytes
      → List (Bytes × Msg)
      → Link uh ua fp qs User Ctx
  idle b s me others = record {
    broker = record b { rpc = []; pipe = [] };
    server = record s { sent = [] };
    me = me;
    others = others;
    running = true;
  }

  -- The same with answers in the pipe.
  abbrev pub waiting :
      Broker fp.Double Ctx
      → Server uh ua fp User
      → Bytes
      → List (Bytes × Msg)
      → List Msg
      → Link uh ua fp qs User Ctx
  waiting b s me others answers = record (idle b s me others) {
    broker = record b { rpc = []; pipe = answers };
  }

  pub same_refl : (k : Bytes) → uh.key.same k k ≡ true
  same_refl k = (uh.key.same_iff k k).1 refl

  kept_lem :
      (b : Broker fp.Double Ctx) (s : Server uh ua fp User) (me : Bytes)
      (others : List (Bytes × Msg)) (answer : Msg)
      → is_reply answer ≡ true
      → (if uh.key.same me me
          then (rpc_handler (record b { rpc = []; pipe = [] }) answer
              >>= (λ r. some (record (idle b s me others) { broker = r.1 })))
          else some (record (idle b s me others) { others = others ++ (me, answer) ∷ [] }))
        ≡ some (waiting b s me others (answer ∷ []))
  unfolding rpc_handler
  kept_lem b s me others answer r = rw (same_refl me, r, rpc_handler) refl

  -- One answer to this client.
  pub deliver_lem :
      (b : Broker fp.Double Ctx) (s : Server uh ua fp User) (me : Bytes)
      (others : List (Bytes × Msg))
      → (reply : Reply uh ua fp) (answer : Msg) → message_of uh ua fp qs reply ≡ some answer
      → is_reply answer ≡ true
      → deliver uh ua fp qs User Ctx (idle b s me others) ((me, reply) ∷ [])
        ≡ some (waiting b s me others (answer ∷ []))
  unfolding deliver deliver_one rpc_handler
  deliver_lem b s me others reply answer e r =
      ap (λ o. ◌>>=◌ {B = Link uh ua fp qs User Ctx} o (λ w. some w))
        (bind_some e _ ∙ kept_lem b s me others answer r)

  -- A request that the server handles and whose messages are delivered.
  pub send_lem :
      (b : Broker fp.Double Ctx) (s s' : Server uh ua fp User) (me : Bytes)
      (others : List (Bytes × Msg)) (w : Link uh ua fp qs User Ctx)
      → (msg : Msg) (request : Request uh ua fp) → request_of uh ua fp qs msg ≡ some request
      → role_callback uh ua fp User cb (record s { sent = [] }) me request stacked
        ≡ some (pos 0, s')
      → deliver uh ua fp qs User Ctx (idle b s' me others) s'.sent ≡ some w
      → send uh ua fp qs User Ctx cb stacked (idle b s me others) msg ≡ some w
  unfolding send serve_all serve pipe_handler same_ℤ
  send_lem b s s' me others w msg request e f g =
      ap (λ o. ◌>>=◌ {B = Link uh ua fp qs User Ctx} o (λ w'. some w'))
        (bind_some e _ ∙ bind_some f _ ∙ g)

  -- A request that the server handles, when the delivery of its messages leaves one answer.
  pub received_lem :
      (b b' : Broker fp.Double Ctx) (s s' : Server uh ua fp User) (me : Bytes)
      (others others' : List (Bytes × Msg)) (msg : Msg) (request : Request uh ua fp)
      → (answer : Msg) → request_of uh ua fp qs msg ≡ some request
      → role_callback uh ua fp User cb (record s { sent = [] }) me request stacked
        ≡ some (pos 0, s')
      → deliver uh ua fp qs User Ctx (idle b s' me others) s'.sent
        ≡ some (waiting b' s' me others' (answer ∷ []))
      → exchange ua fp qs (link uh ua fp qs User Ctx cb stacked) (idle b s me others) msg
        ≡ some (answer, idle b' s' me others')
  unfolding exchange recv role_recv
  received_lem b b' s s' me others others' msg request answer e f g =
      bind_some
        (send_lem b s s' me others (waiting b' s' me others' (answer ∷ [])) msg request e f g) _

  -- A request that the server understands and answers this client once.
  pub exchange_lem :
      (b : Broker fp.Double Ctx) (s s' : Server uh ua fp User) (me : Bytes)
      (others : List (Bytes × Msg)) (msg : Msg) (request : Request uh ua fp)
      → (reply : Reply uh ua fp) (answer : Msg) → request_of uh ua fp qs msg ≡ some request
      → role_callback uh ua fp User cb (record s { sent = [] }) me request stacked
        ≡ some (pos 0, s')
      → s'.sent ≡ (me, reply) ∷ []
      → message_of uh ua fp qs reply ≡ some answer
      → is_reply answer ≡ true
      → exchange ua fp qs (link uh ua fp qs User Ctx cb stacked) (idle b s me others) msg
        ≡ some (answer, idle b s' me others)
  exchange_lem b s s' me others msg request reply answer e f one g r =
      received_lem b b s s' me others others msg request answer e f (
        ap (deliver uh ua fp qs User Ctx (idle b s' me others)) one
        ∙ deliver_lem b s' me others reply answer g r)
