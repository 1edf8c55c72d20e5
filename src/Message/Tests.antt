-- ===== src/Message/Tests.antt =====
-- The theorems on the JSON of messages and on control messages of src/messages.c, at small examples.
use libnrm.Prelude.{ℕ, ◌≡◌, refl, ap, none, some, Option, List, [], ◌∷◌, ◌++◌, arith}
use libnrm.Prelude.Int.{ℤ, pos}
use libnrm.Prelude.Bytes.{Bytes, ascii}
use libnrm.Ext.Czmq.{Pipes}
use libnrm.Ext.Integers.{integers}
use libnrm.Ext.JsonValues.{json_values, Value}
use libnrm.Message.{
  Message, add_type, addition, actuator_data, actuator_target, limits, continuous_type,
}
use libnrm.Message.Printing.{msg_to_json, type_name}
use libnrm.Message.Printed.{add_agrees, actuator_agrees, continuous_agrees, msg_to_json_lem}
use libnrm.Message.Ctrlmsg.{send_all, recv_all, as_received, recv_all-send_all}

abbrev first : List (Bytes × ℕ × ℕ) → Option (ℤ × (Bytes × ℕ × ℕ) × List (Bytes × ℕ × ℕ))
first [] = none
first (m ∷ l) = some (pos 0, m, l)

-- A pipe that is the list of what was sent.
abbrev list_pipe : Pipes ℕ
list_pipe = record {
  Pipe = List (Bytes × ℕ × ℕ);
  zsock_send = λ k s p q. (pos 0, k ++ (s, p, q) ∷ []);
  zsock_recv = first;
  queue = λ k. k;
  send_lem = λ k s p q. (k ++ (s, p, q) ∷ [], refl, refl);
  recv_lem = λ k m l e. (l, ap first e, refl);
}

abbrev orders : List (ℕ × ℕ × ℕ)
orders = (1, 10, 11) ∷ (3, 20, 21) ∷ (0, 0, 0) ∷ []

recv_all-send_all_example :
    (k1 : List (Bytes × ℕ × ℕ)) × (k2 : List (Bytes × ℕ × ℕ)) × (send_all list_pipe [] orders
      ≡ some k1)
    × (recv_all list_pipe 3 k1 ≡ some (as_received ℕ orders, k2))
    × (k2 ≡ [])
recv_all-send_all_example =
    recv_all-send_all list_pipe orders [] (omega arith, (omega arith, (omega arith, tt))) refl

abbrev dial_added : Message ℤ
dial_added = record {
  type = add_type;
  data_case = addition (record {
    type = actuator_target;
    data_case = actuator_data (record {
      uuid = 100 ∷ [];
      clientid = some (99 ∷ []);
      value = pos 5;
      type = continuous_type;
      data_case = limits (pos 0) (pos 9);
    });
  });
}

msg_to_json_lem_example :
    (j : Value integers) × (t : Value integers) × (msg_to_json integers
        (json_values integers)
        dial_added
      ≡ some (some j))
    × ((json_values integers).member j (ascii "type") ≡ some t)
    × ((json_values integers).string_value t ≡ some (type_name add_type))
msg_to_json_lem_example =
    msg_to_json_lem integers (json_values integers) dial_added
      (add_agrees (actuator_agrees continuous_agrees))
