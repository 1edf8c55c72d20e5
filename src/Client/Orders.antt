-- ===== src/Client/Orders.antt =====
-- nrm_client_actuate of src/client.c over the link: the client's check, the daemon's correction, and
-- the order that reaches the actuator's owner.
use libnrm.Prelude.{
  bind_some, ◌≡◌, refl, ap, ◌∙◌, Bool, true, false, Option, none, some, List, [], ◌∷◌, ◌++◌, subst,
  if◌then◌else◌,
}
use libnrm.Prelude.Int.{pos}
use libnrm.Prelude.Bytes.{Bytes}
use libnrm.Error.{success}
use libnrm.Ext.Uthash.{Uthash}
use libnrm.Ext.Utarray.{Utarray}
use libnrm.Ext.Qsort.{Qsort}
use libnrm.Ext.Doubles.{Doubles}
use libnrm.Actuator.{Actuator, validate_value, set_value}
use libnrm.Actuator.Valid.{IsReadyFor}
use libnrm.State.Laws.{actuator_at}
use libnrm.Message
use libnrm.Message.{Message, created, set_actuate, actuate_type, ack_type, is_reply}
use libnrm.Role.{Broker, rpc_handler}
use libnrm.Server.{Server, Callbacks, actuate_order, ack, actuate_request, role_callback}
use libnrm.Server.Wire.{request_of, message_of}
use libnrm.Server.Laws.{corrected, actuate_callback_lem}
use libnrm.Client.Calls.{actuate, acknowledged}
use libnrm.Client.Sending.{Listeners, actuate_callback}
use libnrm.Client.Link.{Link, link, deliver, deliver_one}
use libnrm.Client.Connected.{idle, waiting, received_lem, deliver_lem, same_refl}

-- What a program has heard after an order.
abbrev pub heard : {D Ctx : Type 0} → Listeners D Ctx → Ctx → Bytes → D → Ctx
heard client c uuid value = elim client.actuate_fn [ none ↦ c | some fn ↦ fn c uuid value ]

actuate_callback-heard :
    {D Ctx : Type 0} (client : Listeners D Ctx) (c : Ctx) (uuid : Bytes) (value : D)
    → actuate_callback client c (set_actuate (created actuate_type) uuid value)
      ≡ some (pos 0, heard client c uuid value)
unfolding actuate_callback set_actuate
actuate_callback-heard {D} {Ctx} client c uuid value = by_listener client.actuate_fn
  where
    by_listener :
        (fn : Option (Ctx → Bytes → D → Ctx))
        → actuate_callback
            (record client { actuate_fn = fn })
            c
            (set_actuate (created actuate_type) uuid value)
          ≡ some (pos 0, heard (record client { actuate_fn = fn }) c uuid value)
    by_listener none = refl
    by_listener (some fn) = refl

module _ (uh : Uthash Bytes) (ua : Utarray) (fp : Doubles) (qs : Qsort ua) (User Ctx : Type 0)
    (cb : Callbacks uh ua fp User) (stacked : Bytes) (client : Listeners fp.Double Ctx)
    (me : Bytes) where
  -- A link whose client called nrm_client_start_actuate_listener, with what its program has heard.
  abbrev pub listening :
      Broker fp.Double Ctx
      → Ctx
      → Server uh ua fp User
      → List (Bytes × Message fp.Double)
      → Link uh ua fp qs User Ctx
  listening b c s others =
      idle uh ua fp qs User Ctx cb stacked
        (record b { cmd_cb = some (actuate_callback client); arg = c }) s me others

  deliver_own :
      (b : Broker fp.Double Ctx) (c : Ctx) (s : Server uh ua fp User)
      (others : List (Bytes × Message fp.Double)) (uuid : Bytes) (value : fp.Double)
      → deliver_one uh ua fp qs User Ctx (listening b c s others) (me, actuate_order uuid value)
        ≡ some (listening b (heard client c uuid value) s others)
  unfolding deliver_one message_of rpc_handler is_reply Message.fill Message.create set_actuate
  deliver_own b c s others uuid value =
      rw (same_refl uh ua fp qs User Ctx cb stacked me)
        (bind_some (bind_some (bind_some (actuate_callback-heard client c uuid value) _) _) _)

  deliver_other :
      (b : Broker fp.Double Ctx) (c : Ctx) (s : Server uh ua fp User)
      (others : List (Bytes × Message fp.Double)) (owner uuid : Bytes) (value : fp.Double)
      → uh.key.same me owner ≡ false
      → deliver_one uh ua fp qs User Ctx (listening b c s others) (owner, actuate_order uuid value)
        ≡ some (
            listening b c s (others ++ (owner, set_actuate (created actuate_type) uuid value) ∷ []))
  unfolding deliver_one message_of
  deliver_other b c s others owner uuid value other = rw other refl

  -- Where an order to an owner goes: to this client's listener, or to another client.
  abbrev pub heard_here : Ctx → Bytes → Bytes → fp.Double → Ctx
  heard_here c owner uuid value = if uh.key.same me owner then heard client c uuid value else c

  abbrev pub sent_elsewhere :
      List (Bytes × Message fp.Double)
      → Bytes
      → Bytes
      → fp.Double
      → List (Bytes × Message fp.Double)
  sent_elsewhere others owner uuid value =
      if uh.key.same me owner
      then others
      else others ++ (owner, set_actuate (created actuate_type) uuid value) ∷ []

  deliver_order :
      (b : Broker fp.Double Ctx) (c : Ctx) (s : Server uh ua fp User)
      (others : List (Bytes × Message fp.Double)) (owner uuid : Bytes) (value : fp.Double)
      → deliver_one uh ua fp qs User Ctx (listening b c s others) (owner, actuate_order uuid value)
        ≡ some
            (listening b (heard_here c owner uuid value) s (sent_elsewhere others owner uuid value))
  deliver_order b c s others owner uuid value = by_owner (uh.key.same me owner) refl
    where
      by_owner :
          (t : Bool)
          → uh.key.same me owner ≡ t
          → deliver_one uh ua fp qs User Ctx
              (listening b c s others)
              (owner, actuate_order uuid value)
            ≡ some (
                listening b
                  (heard_here c owner uuid value)
                  s
                  (sent_elsewhere others owner uuid value))
      by_owner true e = rw e (
          subst
            (λ o.
              deliver_one uh ua fp qs User Ctx (listening b c s others)
                (o, actuate_order uuid value)
              ≡ some (listening b (heard client c uuid value) s others))
            ((uh.key.same_iff me owner).0 e) (deliver_own b c s others uuid value))
      by_owner false e = rw e (deliver_other b c s others owner uuid value e)

  deliver_both :
      (b : Broker fp.Double Ctx) (c : Ctx) (s : Server uh ua fp User)
      (others : List (Bytes × Message fp.Double)) (owner uuid : Bytes) (value : fp.Double)
      → deliver uh ua fp qs User Ctx
          (listening b c s others)
          ((owner, actuate_order uuid value) ∷ (me, ack) ∷ [])
        ≡ some (
            waiting uh ua fp qs User Ctx cb stacked
              (record b {
                cmd_cb = some (actuate_callback client);
                arg = heard_here c owner uuid value;
              })
              s
              me
              (sent_elsewhere others owner uuid value)
              (created ack_type ∷ []))
  unfolding deliver message_of is_reply Message.fill Message.create
  deliver_both b c s others owner uuid value =
      bind_some (deliver_order b c s others owner uuid value) _
      ∙ deliver_lem uh ua fp qs User Ctx cb stacked
          (record b {
            cmd_cb = some (actuate_callback client);
            arg = heard_here c owner uuid value;
          })
          s me (sent_elsewhere others owner uuid value) ack (created ack_type) refl refl

  -- nrm_client_actuate over the link, with a value that the client's actuator accepts, when the daemon
  -- has an actuator of that name with an owner and its callback allows the request: the call returns 0;
  -- the daemon's actuator gets the corrected value and its others stay; and the owner is sent the
  -- corrected value, which the calling client's own listener hears if the client is the owner.
  pub actuate_lem :
      (b : Broker fp.Double Ctx) (c : Ctx) (s : Server uh ua fp User)
      (others : List (Bytes × Message fp.Double)) (a a' : Actuator ua fp) (owner : Bytes)
      → (value : fp.Double) → validate_value ua fp a value ≡ success
      → actuator_at uh ua fp s.state a.uuid ≡ some a'
      → a'.clientid ≡ some owner
      → IsReadyFor ua fp value a'.kind
      → cb.actuate (record s { sent = [] }) a' value ≡ (pos 0, record s { sent = [] })
      → (s' : Server uh ua fp User) × (actuate ua fp qs
            (link uh ua fp qs User Ctx cb stacked)
            (listening b c s others)
            (some a)
            value
          ≡ some (
            success,
            listening b
                (heard_here c owner a.uuid (corrected uh ua fp User a' value))
                s'
                (sent_elsewhere others owner a.uuid (corrected uh ua fp User a' value)),
          ))
        × ((j : Bytes)
            → actuator_at uh ua fp s'.state j ≡ (
                if uh.key.same a.uuid j
                then some (set_value ua fp a' (corrected uh ua fp User a' value))
                else actuator_at uh ua fp s.state j))
        × (validate_value ua fp
              (set_value ua fp a' (corrected uh ua fp User a' value))
              (corrected uh ua fp User a' value)
            ≡ success)
  unfolding actuate acknowledged request_of role_callback set_actuate Message.fill Message.create
  actuate_lem b c s others a a' owner value checked found owned ready allowed =
      let (s', done, sent, at, valid) =
        actuate_callback_lem uh ua fp User cb (record s { sent = [] }) me a.uuid owner value a'
          found owned ready allowed in
      (
        s',
        rw (checked, actuate)
            (bind_some
              (received_lem uh ua fp qs User Ctx cb stacked
                (record b { cmd_cb = some (actuate_callback client); arg = c })
                (record b {
                  cmd_cb = some (actuate_callback client);
                  arg = heard_here c owner a.uuid (corrected uh ua fp User a' value);
                })
                s s' me others
                (sent_elsewhere others owner a.uuid (corrected uh ua fp User a' value)) _
                (actuate_request a.uuid value) _ refl done
                (ap (deliver uh ua fp qs User Ctx (listening b c s' others)) sent
                  ∙ deliver_both b c s' others owner a.uuid (corrected uh ua fp User a' value)))
              _),
        at,
        valid,
      )
