-- ===== src/Client/Link.antt =====
-- A client (src/client.c over src/roles/client.c) and the daemon's server (src/server.c) that it is
-- connected to, as a transport: a request is handled as soon as it is sent, and the answers arrive in
-- their order. The sockets between the two are left out.
use libnrm.Prelude.{◌>>=◌, Bool, true, false, Option, some, List, [], ◌∷◌, ◌++◌, if◌then◌else◌}
use libnrm.Prelude.Int.{negsuc}
use libnrm.Prelude.Bytes.{Bytes}
use libnrm.Ext.Models.{same_ℤ}
use libnrm.Ext.Uthash.{Uthash}
use libnrm.Ext.Utarray.{Utarray}
use libnrm.Ext.Qsort.{Qsort}
use libnrm.Ext.Doubles.{Doubles}
use libnrm.Message.{Message}
use libnrm.Role
use libnrm.Role.{Broker, send_ctrl, pipe_handler, rpc_handler}
use libnrm.Server.{Server, Callbacks, Reply, role_callback}
use libnrm.Server.Wire.{request_of, message_of}
use libnrm.Client.{Transport}

module _ (uh : Uthash Bytes) (ua : Utarray) (fp : Doubles) (qs : Qsort ua) (User Ctx : Type 0) where
  -- Both ends, with the name that the client's socket has for the server, what other clients were
  -- sent, and whether the server's loop still runs.
  pub record Link : Type 0 where
    pub broker : Broker fp.Double Ctx
    pub server : Server uh ua fp User
    pub me : Bytes
    pub others : List (Bytes × Message fp.Double)
    pub running : Bool

  -- One message from the server, and all of them.
  unfoldable pub deliver_one : Link → Bytes × Reply uh ua fp → Option Link
  unfolding rpc_handler message_of
  deliver_one w (to, reply) = do
    msg ← message_of uh ua fp qs reply
    if uh.key.same w.me to
        then (rpc_handler w.broker msg >>= (λ r. some (record w { broker = r.1 })))
        else some (record w { others = w.others ++ (to, msg) ∷ [] })

  unfoldable pub deliver : Link → List (Bytes × Reply uh ua fp) → Option Link
  unfolding deliver_one
  deliver w [] = some w
  deliver w (m ∷ l) = do after ← deliver_one w m; deliver after l

  module _ (cb : Callbacks uh ua fp User) (stacked : Bytes) where
    -- nrm_server_role_callback on a message of this client, and the delivery of what it sends. The
    -- loop of the server ends with a handler that returns -1; later messages are not read.
    unfoldable pub serve : Link → Message fp.Double → Option Link
    unfolding deliver request_of
    serve w msg =
        if w.running
        then (do
          request ← request_of uh ua fp qs msg
          r ← role_callback uh ua fp User cb (record w.server { sent = [] }) w.me request stacked
          deliver
              (record w {
                server = record r.1 { sent = [] };
                running = if same_ℤ r.0 (negsuc 0) then false else true;
              })
              r.1.sent)
        else some w

    -- The rpc socket's messages, in order.
    unfoldable pub serve_all : Link → List (Message fp.Double) → Option Link
    unfolding serve
    serve_all w [] = some w
    serve_all w (msg ∷ l) = do after ← serve w msg; serve_all after l

    -- nrm_role_client_send, with the broker's handler and the server's
    unfoldable pub send : Link → Message fp.Double → Option Link
    unfolding serve_all pipe_handler
    send w msg =
        let b = (pipe_handler w.broker (send_ctrl msg)).1 in
        serve_all (record w { broker = record b { rpc = [] } }) b.rpc

    -- nrm_role_client_recv
    unfoldable pub recv : Link → Option (Message fp.Double × Link)
    recv w = do r ← Role.role_recv w.broker; some (r.0, record w { broker = r.1 })

    abbrev pub link : Transport fp.Double
    link = record { World = Link; role_send = send; role_recv = recv }
