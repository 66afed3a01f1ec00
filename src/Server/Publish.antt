-- ===== src/Server/Publish.antt =====
-- src/mqtt_server.cpp: the publishing of a message to the clients that subscribed to it, and the
-- functions for the local client.
use u_mqttbroker.Base.{
  ℕ, Bool, true, not, ◌&&◌, Option, none, some, List, [], ◌∷◌, if◌then◌else◌, ◌==◌, take,
}
use u_mqttbroker.Proto.{minus_one}
use u_mqttbroker.Msg.{Connection}
use u_mqttbroker.Msg.Build.{msg_publish}
use u_mqttbroker.Msg.Packet.{message_bytes}
use u_mqttbroker.Queue.{puts, is_empty}
use u_mqttbroker.TopicList.{Entry, Str, null, live, freed}
use u_mqttbroker.TopicList
use u_mqttbroker.Retained.{Slot, Store, Memory}
use u_mqttbroker.Retained
use u_mqttbroker.Retained.Image.{str_of}
use u_mqttbroker.Server.{
  Broker, Client, post, data_cb, null_write, local_mqtt_client, log, find_client, put_client,
}

-- A message is built in the shared buffer and put into the client's queue; the Boolean tells
-- whether the queue took it.
unfoldable pub enqueue : Broker → Client → (Connection → Connection) → Bool × Broker
enqueue b c build =
    let conn = build (record c.connection { buffer = b.shared_out_buffer }) in
    let (n, q) = puts c.msg_queue (message_bytes conn) in
    (
      not (n == minus_one),
      record b {
        clientcon_list =
            put_client (record c { connection = conn; msg_queue = q }) b.clientcon_list;
        shared_out_buffer = conn.buffer;
      },
    )

-- The callback of the local client is taken not to change the broker.
unfoldable pub publish_topic : Broker → Entry → List ℕ → List ℕ → Bool × Broker
unfolding enqueue
publish_topic b e topic content = elim e.clientcon [
  | none ↦ (true, b)
  | some address ↦
      if address == local_mqtt_client
      then (true, if b.local_data_cb then log b (data_cb topic content) else b)
      else elim (find_client address b.clientcon_list) [
        | none ↦ (true, log b (null_write address))
        | some c ↦ enqueue b c λ conn. (msg_publish conn (some topic) content e.qos 0).1
      ]
]

unfoldable pub publish_retainedtopic : Broker → Client → Slot → Bool × Broker
unfolding enqueue
publish_retainedtopic b c s =
    enqueue b c λ conn. (msg_publish conn s.topic (take s.data_len (str_of s.content)) s.qos 1).1

-- The calls of `publish_topic` by `find_topic`, which takes no notice of their results.
abbrev pub publish_all : Broker → List Entry → List ℕ → List ℕ → Broker
publish_all b [] topic content = b
publish_all b (e ∷ entries) topic content =
    publish_all (publish_topic b e topic content).1 entries topic content

-- `find_topic(topic, publish_topic, data, data_len)`
unfoldable pub publish : Broker → List ℕ → List ℕ → Broker
unfolding publish_topic
publish b topic content = publish_all b (TopicList.find b.topic_list topic).0 topic content

-- The first client with a message to send on a connection that is open.
abbrev pub next_client : (ℕ → Bool) → List Client → Option Client
next_client connected [] = none
next_client connected (c ∷ clients) =
    let rest = next_client connected clients in
    if not (is_empty c.msg_queue) && connected c.pcon then some c else rest

unfoldable pub activate_next_client : (ℕ → Bool) → Broker → Broker
activate_next_client connected b = elim (next_client connected b.clientcon_list) [
  | none ↦ b
  | some c ↦ log b (post c.address)
]

-- `update_retainedtopic`, whose calls of `retained_cb` are left out.
abbrev pub retain : Memory → Broker → List ℕ → List ℕ → ℕ → Broker
retain memory b topic content qos = record b {
  retained = (Retained.update memory b.retained topic content qos).1;
}

unfoldable pub local_publish :
    (ℕ → Bool) → Memory → Broker → List ℕ → List ℕ → ℕ → Bool → Bool × Broker
unfolding publish activate_next_client
local_publish connected memory b topic content qos retained =
    let b₁ = publish b topic content in
    let b₂ = if retained then retain memory b₁ topic content qos else b₁ in
    (true, activate_next_client connected b₂)

unfoldable pub local_subscribe : Bool → Broker → List ℕ → ℕ → Bool × Broker
local_subscribe memory b topic qos =
    let (done, l) = TopicList.add memory b.topic_list local_mqtt_client topic 0 in
    (done, record b { topic_list = l })

unfoldable pub local_unsubscribe : Broker → List ℕ → Bool × Broker
local_unsubscribe b topic =
    let (done, l) = TopicList.delete b.topic_list (some local_mqtt_client) (some topic) in
    (done, record b { topic_list = l })
