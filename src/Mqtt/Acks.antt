-- ===== src/Mqtt/Acks.antt =====
-- src/mqtt.c: what the client answers to the messages of the broker.
use u_mqttbroker.Base.{
  ℕ, ◌-◌, ◌≤◌, ◌<◌, ◌≡◌, inl, inr, Bool, true, false, Option, none, some, List, [], ◌∷◌, ◌++◌,
  arith, length, if◌then◌else◌, leb, ◌==◌, AllBytes, Bool-cases,
}
use u_mqttbroker.Ring.Inv.{IsValid}
use u_mqttbroker.Ring.Refine.{contents}
use u_mqttbroker.Proto.{minus_one}
use u_mqttbroker.Proto.Frame.{frame}
use u_mqttbroker.Msg.{Connection, puback, pubrec, pubrel, pubcomp, pingresp}
use u_mqttbroker.Msg.Read.{get_type, get_id, get_qos}
use u_mqttbroker.Msg.Build.{msg_puback, msg_pubrec, msg_pubrel, msg_pubcomp, msg_pingresp}
use u_mqttbroker.Msg.Packet.{
  packet, u16_bytes, given_id, message_bytes, IsReady, init_message-IsOpen, fini_message_lem,
}
use u_mqttbroker.Msg.Builders.{acks_lem}
use u_mqttbroker.Queue.{Queue}
use u_mqttbroker.Queue.Fifo.{Carries, puts-Carries}
use u_mqttbroker.Server.{mqtt_buf_size}
use u_mqttbroker.Mqtt.{MqttClient}
use u_mqttbroker.Mqtt.Receive.{reply, acknowledge, deliver_publish, receive_message}

msg_pingresp_lem :
    {c : Connection} → IsReady c → message_bytes (msg_pingresp c) ≡ packet pingresp 0 0 0 []
unfolding msg_pingresp
msg_pingresp_lem {c} r = fini_message_lem pingresp 0 0 0 (init_message-IsOpen r)

-- The packet that a message of a type and a QoS asks for: a PUBACK or a PUBREC for a PUBLISH of QoS 1
-- or 2, a PUBREL for a PUBREC, a PUBCOMP for a PUBREL, each with the id, and a PINGRESP.
abbrev pub answer : ℕ → ℕ → ℕ → Option (List ℕ)
answer type qos id =
    if type == 3
    then (if qos == 1
        then some (packet puback 0 0 0 (u16_bytes id))
        else if qos == 2
        then some (packet pubrec 0 0 0 (u16_bytes id))
        else none)
    else if type == 5
    then some (packet pubrel 0 1 0 (u16_bytes id))
    else if type == 6
    then some (packet pubcomp 0 0 0 (u16_bytes id))
    else if type == 12
    then some (packet pingresp 0 0 0 [])
    else none

-- The messages of the queue behind an answer, which is lost if there is no room.
abbrev pub answered : Queue → List (List ℕ) → Option (List ℕ) → List (List ℕ)
answered q ms none = ms
answered q ms (some m) =
    if leb (length (frame m)) (q.rb.size - q.rb.fill_cnt) then ms ++ m ∷ [] else ms

module _ (c : MqttClient) (ms : List (List ℕ)) (v : IsValid c.msg_queue.rb)
    (s : c.msg_queue.rb.size < minus_one) (q : Carries (contents c.msg_queue.rb) ms) where
  abbrev Answers : Option (List ℕ) → MqttClient → Type 0
  Answers o d = Carries (contents d.msg_queue.rb) (answered c.msg_queue ms o)

  Answers-if :
      (b : Bool) (o o' : Option (List ℕ)) (d d' : MqttClient)
      → Answers o d
      → Answers o' d'
      → Answers (if b then o else o') (if b then d else d')
  Answers-if true o o' d d' h k = h
  Answers-if false o o' d d' h k = k

  reply-Answers :
      (build : Connection → Connection) (m : List ℕ)
      → AllBytes m
      → message_bytes (build c.connection) ≡ m
      → Answers (some m) (reply c build)
  unfolding reply
  reply-Answers build m a e = rw (reply, e) (puts-Carries c.msg_queue m ms v s a q).3

  deliver_publish-Answers :
      (o : Option (List ℕ)) (d : MqttClient) (n : ℕ) → Answers o d → Answers o (deliver_publish d n)
  unfolding deliver_publish
  deliver_publish-Answers o d n h = elim (Bool-cases d.callbacks.data_cb) [
    | inl e ↦ rw (deliver_publish, e) h
    | inr e ↦ rw (deliver_publish, e) h
  ]

  -- With room in the shared buffer for an acknowledgement, the packet that a message asks for is
  -- put into the valid queue behind the others if it fits, with the id of the message, or the next
  -- id where that is 0; a message that asks for none leaves the queue as it is.
  pub receive_message-Answers :
      IsReady c.connection
      → 5 ≤ c.connection.buffer_length
      → given_id c.connection.message_id (get_id c.in_buffer mqtt_buf_size) < 65536
      → Carries (contents (receive_message c).msg_queue.rb) (
          answered c.msg_queue ms (
            answer
              (get_type c.in_buffer)
              (get_qos c.in_buffer)
              (given_id c.connection.message_id (get_id c.in_buffer mqtt_buf_size))))
  unfolding receive_message acknowledge
  receive_message-Answers r f l =
      let t = get_type c.in_buffer in
      let n = get_qos c.in_buffer in
      let id = get_id c.in_buffer mqtt_buf_size in
      let (ack, rec, rel, comp, _) = acks_lem {c = c.connection} id r f in
      let given = given_id c.connection.message_id id in
      let u : AllBytes (u16_bytes given) = (omega (arith, l), (omega arith, tt)) in
      Answers-if (t == 3) _ _ _ _
        (deliver_publish-Answers _ _ c.message_length_read (
          Answers-if (n == 1) _ _ _ _
            (reply-Answers (λ conn. msg_puback conn id) (packet puback 0 0 0 (u16_bytes given))
              (omega arith, (omega arith, u)) ack)
            (Answers-if (n == 2) _ _ _ _
              (reply-Answers (λ conn. msg_pubrec conn id) (packet pubrec 0 0 0 (u16_bytes given))
                (omega arith, (omega arith, u)) rec)
              q)))
        (Answers-if (t == 5) _ _ _ _
          (reply-Answers (λ conn. msg_pubrel conn id) (packet pubrel 0 1 0 (u16_bytes given))
            (omega arith, (omega arith, u)) rel)
          (Answers-if (t == 6) _ _ _ _
            (reply-Answers (λ conn. msg_pubcomp conn id) (packet pubcomp 0 0 0 (u16_bytes given))
              (omega arith, (omega arith, u)) comp)
            (Answers-if (t == 12) _ _ _ _
              (reply-Answers msg_pingresp (packet pingresp 0 0 0 [])
                (omega arith, (omega arith, tt)) (msg_pingresp_lem r))
              q)))
