-- ===== src/Role/Controller.antt =====
-- src/roles/controller.c: the thread between the daemon and its sockets. What it puts on its sockets
-- and what waits for the daemon are lists, and `none` is a call that waits or a failed assertion.
-- The sockets' creation is left out.
use libnrm.Prelude.{Option, none, some, List, [], ◌∷◌, ◌++◌, ◌≡◌, refl, sym, ◌∙◌}
use mathlib.Core.List.{append_assoc, append-nil}
use libnrm.Prelude.Int.{ℤ, pos, negsuc}
use libnrm.Prelude.Bytes.{Bytes}
use libnrm.Message.{Message}

-- The control messages that the daemon's thread sends, with their pointers.
data Order (D : Type 0) : Type 0 where
  term_order : Order D
  send_order : Message D → Bytes → Order D
  pub_order : Bytes → Message D → Order D
  other_order : Order D

-- struct nrm_role_controller_broker_s: the messages on the rpc socket with their clients, those on
-- the pub socket with their topics, and those for the daemon with the clients they come from
record Broker (D : Type 0) : Type 0 where
  rpc : List (Message D × Bytes)
  published : List (Bytes × Message D)
  pipe : List (Message D × Bytes)

module _ {D : Type 0} where
  -- nrm_controller_broker_rpc_handler, on a message that was received
  unfoldable rpc_handler : Broker D → Message D → Bytes → ℤ × Broker D
  rpc_handler self msg uuid = (pos 0, record self { pipe = self.pipe ++ (msg, uuid) ∷ [] })

  -- nrm_controller_broker_pipe_handler
  unfoldable pipe_handler : Broker D → Order D → ℤ × Broker D
  pipe_handler self term_order = (negsuc 0, self)
  pipe_handler self (send_order msg uuid) =
      (pos 0, record self { rpc = self.rpc ++ (msg, uuid) ∷ [] })
  pipe_handler self (pub_order s msg) =
      (pos 0, record self { published = self.published ++ (s, msg) ∷ [] })
  pipe_handler self other_order = (pos 0, self)

  -- nrm_role_controller_send and nrm_role_controller_pub, on the orders that wait
  unfoldable role_send : List (Order D) → Message D → Bytes → ℤ × List (Order D)
  role_send broker msg to = (pos 0, broker ++ send_order msg to ∷ [])

  unfoldable role_pub : List (Order D) → Bytes → Message D → ℤ × List (Order D)
  role_pub broker topic msg = (pos 0, broker ++ pub_order topic msg ∷ [])

  -- nrm_role_controller_recv
  unfoldable role_recv : Broker D → Option ((Message D × Bytes) × Broker D)
  role_recv self = elim self.pipe [ [] ↦ none | msg ∷ l ↦ some (msg, record self { pipe = l }) ]

  -- The loop over the orders, which a handler's -1 ends.
  serve : Broker D → List (Order D) → Broker D
  unfolding pipe_handler
  serve self [] = self
  serve self (order ∷ l) =
      let (ret, after) = pipe_handler self order in
      let rest = serve after l in elim ret [ pos n ↦ rest | negsuc n ↦ after ]

  -- The messages of the orders to send, and of those to publish, before the first one to stop.
  addressed : List (Order D) → List (Message D × Bytes)
  addressed [] = []
  addressed (term_order ∷ l) = []
  addressed (send_order msg uuid ∷ l) = (msg, uuid) ∷ addressed l
  addressed (pub_order s msg ∷ l) = addressed l
  addressed (other_order ∷ l) = addressed l

  announced : List (Order D) → List (Bytes × Message D)
  announced [] = []
  announced (term_order ∷ l) = []
  announced (send_order msg uuid ∷ l) = announced l
  announced (pub_order s msg ∷ l) = (s, msg) ∷ announced l
  announced (other_order ∷ l) = announced l

  -- The thread puts the messages on the two sockets in the order of the calls, and keeps what waits
  -- for the daemon.
  rpc-serve : (self : Broker D) (l : List (Order D)) → (serve self l).rpc ≡ self.rpc ++ addressed l
  unfolding serve addressed pipe_handler
  rpc-serve self [] = sym (append-nil self.rpc)
  rpc-serve self (term_order ∷ l) = sym (append-nil self.rpc)
  rpc-serve self (send_order msg uuid ∷ l) =
      rpc-serve (pipe_handler self (send_order msg uuid)).1 l
      ∙ append_assoc self.rpc ((msg, uuid) ∷ []) (addressed l)
  rpc-serve self (pub_order s msg ∷ l) = rpc-serve (pipe_handler self (pub_order s msg)).1 l
  rpc-serve self (other_order ∷ l) = rpc-serve self l

  published-serve :
      (self : Broker D) (l : List (Order D))
      → (serve self l).published ≡ self.published ++ announced l
  unfolding serve announced pipe_handler
  published-serve self [] = sym (append-nil self.published)
  published-serve self (term_order ∷ l) = sym (append-nil self.published)
  published-serve self (send_order msg uuid ∷ l) =
      published-serve (pipe_handler self (send_order msg uuid)).1 l
  published-serve self (pub_order s msg ∷ l) =
      published-serve (pipe_handler self (pub_order s msg)).1 l
      ∙ append_assoc self.published ((s, msg) ∷ []) (announced l)
  published-serve self (other_order ∷ l) = published-serve self l

  pipe-serve : (self : Broker D) (l : List (Order D)) → (serve self l).pipe ≡ self.pipe
  unfolding serve pipe_handler
  pipe-serve self [] = refl
  pipe-serve self (term_order ∷ l) = refl
  pipe-serve self (send_order msg uuid ∷ l) =
      pipe-serve (pipe_handler self (send_order msg uuid)).1 l
  pipe-serve self (pub_order s msg ∷ l) = pipe-serve (pipe_handler self (pub_order s msg)).1 l
  pipe-serve self (other_order ∷ l) = pipe-serve self l
