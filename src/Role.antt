-- ===== src/Role.antt =====
-- src/roles/client.c: the thread between a client and its sockets. What goes out on the rpc socket
-- and what waits in the pipe are lists; the callbacks work on what the client keeps, and `none` is
-- a behaviour that C does not define. The sockets' creation is left out.
pub mod Controller
use libnrm.Prelude.{◌>>=◌, Option, none, some, List, [], ◌∷◌, ◌++◌, if◌then◌else◌}
use libnrm.Prelude.Int.{ℤ, pos, negsuc}
use libnrm.Prelude.Bytes.{Bytes}
use libnrm.Message.{Message, is_reply}

-- NRM_CTRLMSG_TYPE_SEND and the like, with their pointers
pub data Ctrlmsg (D : Type 0) : Type 0 where
  send_ctrl : Message D → Ctrlmsg D
  sub_ctrl : Bytes → Ctrlmsg D
  term_ctrl : Ctrlmsg D
  other_ctrl : Ctrlmsg D

-- struct nrm_client_broker_s, with what the callbacks' argument points to
pub record Broker (D Ctx : Type 0) : Type 0 where
  pub rpc : List (Message D)
  pub pipe : List (Message D)
  pub topics : List Bytes
  pub sub_cb : Option (Ctx → Message D → Option (ℤ × Ctx))
  pub cmd_cb : Option (Ctx → Message D → Option (ℤ × Ctx))
  pub arg : Ctx

module _ {D Ctx : Type 0} where
  -- nrm_client_broker_pipe_handler
  unfoldable pub pipe_handler : Broker D Ctx → Ctrlmsg D → ℤ × Broker D Ctx
  pipe_handler self (send_ctrl msg) = (pos 0, record self { rpc = self.rpc ++ msg ∷ [] })
  pipe_handler self (sub_ctrl topic) = (pos 0, record self { topics = self.topics ++ topic ∷ [] })
  pipe_handler self term_ctrl = (negsuc 0, self)
  pipe_handler self other_ctrl = (pos 0, self)

  -- A callback that is set is called, and its result is not looked at.
  unfoldable pub call :
      Option (Ctx → Message D → Option (ℤ × Ctx)) → Broker D Ctx → Message D → Option (Broker D Ctx)
  call none self msg = some self
  call (some fn) self msg = do r ← fn self.arg msg; some (record self { arg = r.1 })

  -- nrm_client_broker_rpc_handler, on a message that was received
  unfoldable pub rpc_handler : Broker D Ctx → Message D → Option (ℤ × Broker D Ctx)
  unfolding call
  rpc_handler self msg =
      if is_reply msg
      then some (pos 0, record self { pipe = self.pipe ++ msg ∷ [] })
      else (call self.cmd_cb self msg >>= (λ after. some (pos 0, after)))

  -- nrm_client_broker_sub_handler, on a message that was received
  unfoldable pub sub_handler : Broker D Ctx → Message D → Option (ℤ × Broker D Ctx)
  unfolding call
  sub_handler self msg = call self.sub_cb self msg >>= (λ after. some (pos 0, after))

  -- nrm_role_client_recv: the oldest answer in the pipe; without one the call waits
  unfoldable pub role_recv : Broker D Ctx → Option (Message D × Broker D Ctx)
  role_recv self = elim self.pipe [ [] ↦ none | msg ∷ l ↦ some (msg, record self { pipe = l }) ]

  -- nrm_role_client_register_sub_cb and nrm_role_client_register_cmd_cb
  unfoldable pub register_sub_cb :
      Broker D Ctx → (Ctx → Message D → Option (ℤ × Ctx)) → Broker D Ctx
  register_sub_cb self fn = record self { sub_cb = some fn }

  unfoldable pub register_cmd_cb :
      Broker D Ctx → (Ctx → Message D → Option (ℤ × Ctx)) → Broker D Ctx
  register_cmd_cb self fn = record self { cmd_cb = some fn }
