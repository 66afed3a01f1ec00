-- ===== src/Mqtt/Sending.antt =====
-- src/mqtt.c: `MQTT_Task` of a client that is connected sends the oldest message of its queue.
use u_mqttbroker.Base.{ℕ, ◌≤◌, ◌≡◌, refl, false, Bool, List, [], ◌∷◌, ◌++◌, length}
use u_mqttbroker.Ring.Inv.{IsValid}
use u_mqttbroker.Ring.Refine.{contents}
use u_mqttbroker.Proto.{Parser}
use u_mqttbroker.Queue.Fifo.{Carries}
use u_mqttbroker.Queue.Oldest.{is_empty-Carries, gets_oldest}
use u_mqttbroker.Server.{mqtt_buf_size}
use u_mqttbroker.Mqtt.{MqttClient, mqtt_data, mqtt_send_timout, send, transmit}
use u_mqttbroker.Mqtt.Task.{send_next, task}

-- The oldest message has been sent, the others wait, and the next one waits for the send to end.
abbrev pub HasSent : MqttClient → List ℕ → List (List ℕ) → MqttClient → Type 0
HasSent c m ms c' =
    (c'.events ≡ c.events ++ send m ∷ [])
    × Carries (contents c'.msg_queue.rb) ms
    × (c'.send_timeout ≡ mqtt_send_timout)
    × (c'.keep_alive_tick ≡ 0)
    × (c'.conn_state ≡ mqtt_data)

-- When a client is connected without security, its last send has ended, and a message of at most
-- 512 bytes is the oldest in its queue, then its task sends the message; the others stay in the
-- queue, and the next one waits for the end of the send.
pub task_sends :
    (accepts : Bool) (stack : Parser) (buffer : List ℕ) (c : MqttClient) (m : List ℕ)
    (ms : List (List ℕ))
    → c.conn_state ≡ mqtt_data
    → c.security ≡ false
    → c.send_timeout ≡ 0
    → IsValid c.msg_queue.rb
    → mqtt_buf_size ≤ length buffer
    → length m ≤ mqtt_buf_size
    → Carries (contents c.msg_queue.rb) (m ∷ ms)
    → HasSent c m ms (task accepts stack buffer c)
unfolding task send_next
task_sends accepts stack buffer c m ms s x z v h l q =
    let (len, out, rest) = gets_oldest stack c.msg_queue buffer mqtt_buf_size m ms v h l q in
    let e = is_empty-Carries c.msg_queue m ms q in
    rw (task, s, send_next, e, z, len, out, transmit, x) (refl, rest, refl, refl, s)
