-- ===== src/Server/Run.antt =====
-- src/mqtt_server.cpp: the broker as a whole, as the steps that it can do.
pub mod Safety
use u_mqttbroker.Base.{
  ℕ, ◌≡◌, ◌⊎◌, Bool, true, false, ◌&&◌, Option, none, some, List, [], if◌then◌else◌, ltb,
}
use u_mqttbroker.TopicList
use u_mqttbroker.Retained.{Memory, Store}
use u_mqttbroker.Retained
use u_mqttbroker.Proto.{Parser}
use u_mqttbroker.Server.{Broker, Client, tcp_disconnect, stop, log, find_client}
use u_mqttbroker.Server.Publish.{local_publish, local_subscribe, local_unsubscribe}
use u_mqttbroker.Server.Close.{server_timer, discon_cb, cleanup_client_cons}
use u_mqttbroker.Server.Task.{connected_cb, server_task, dummy_task}
use u_mqttbroker.Server.Receive.{recv_cb}
use u_mqttbroker.Server.Receive.Connect.{Auth}
use u_mqttbroker.Server.Receive.Session.{Outside}

-- `MQTT_server_start`, behind the start of the network's server: whether the two lists get memory,
-- their sizes, and `load_retainedtopics`, which is the identity where it is not compiled in.
unfoldable pub server_start : Bool → Bool → (Store → Store) → ℕ → ℕ → Broker → Bool × Broker
server_start topic_memory retained_memory load max_subscriptions max_retained_topics b =
    let (topics, l) = TopicList.create topic_memory max_subscriptions in
    let (kept, s) = Retained.create retained_memory max_retained_topics in
    let b₁ = record b { topic_list = l } in
    let b₂ = record b₁ { retained = s } in
    if topics
    then (if kept
        then (true, record b₂ { clientcon_list = []; retained = load s })
        else (false, b₂))
    else (false, b₁)

-- `MQTT_server_start` with a port for TLS; `tls` is whether TLS is compiled in. Without a port of its
-- own the other server does not start, and nothing is set up for the messages of the one for TLS.
unfoldable pub server_start_tls :
    Bool → Bool → Bool → (Store → Store) → ℕ → ℕ → ℕ → ℕ → Broker → Bool × Broker
unfolding server_start
server_start_tls tls topic_memory retained_memory load portno portno_tls max_subscriptions
      max_retained_topics b =
    if ltb 0 portno
    then server_start topic_memory retained_memory load max_subscriptions max_retained_topics b
    else (tls && ltb 0 portno_tls, b)

-- `MQTT_server_onData`, `MQTT_server_onDisconnect` and `MQTT_server_onRetain`; the other two
-- callbacks are arguments of the handlers that call them.
unfoldable pub on_data : Broker → Bool → Broker
on_data b cb = record b { local_data_cb = cb }

unfoldable pub on_disconnect : Broker → Bool → Broker
on_disconnect b cb = record b { local_disconnect_cb = cb }

unfoldable pub on_retain : Broker → Bool → Broker
unfolding Retained.set_on_retainedtopic_cb
on_retain b cb = record b { retained = Retained.set_on_retainedtopic_cb b.retained cb }

-- A step: a callback or the timer of a connection, the task, or a call of the local client. A client
-- that `os_zalloc` gives is all zeros, and its buffer gets memory.
pub data Step (auth : Option Auth) : Broker → Broker → Type 0 where
  receives :
      (fuel : ℕ) (outside : ℕ → Outside) (b b' : Broker) (pcon : ℕ) (pdata : List ℕ)
      → ((k : ℕ) → (outside k).auth ≡ auth)
      → recv_cb fuel outside b pcon pdata ≡ some b'
      → Step auth b b'
  connects :
      (zalloc : Option Client) (free_heap : ℕ) (agrees : ℕ → ℕ → Bool) (memory : Bool) (b : Broker)
      (pcon : ℕ)
      → ((c : Client) → zalloc ≡ some c → c.inbound.message_length_read ≡ 0)
      → Step auth b (connected_cb zalloc free_heap agrees true memory b pcon)
  -- A connection for which the table has no entry.
  rejects : (b : Broker) (pcon : ℕ) → Step auth b (log b (stop pcon))
  disconnects :
      (connected : ℕ → Bool) (memory : Memory) (b : Broker) (pcon : ℕ)
      → Step auth b (discon_cb connected memory b pcon)
  ticks :
      (connected : ℕ → Bool) (memory : Memory) (b : Broker) (a : ℕ) (c : Client)
      → find_client a b.clientcon_list ≡ some c
      → Step auth b (server_timer connected memory b c)
  sends :
      (connected : ℕ → Bool) (available : ℕ → ℕ) (memory : Memory) (stack : Parser)
      (buffer : List ℕ) (b : Broker) (a : ℕ) (c : Client)
      → ((find_client a b.clientcon_list ≡ some c) ⊎ (c.conn_state ≡ tcp_disconnect))
      → Step auth b (server_task connected available memory stack buffer b c)
  closes : (connected : ℕ → Bool) (b : Broker) → Step auth b (dummy_task connected b)
  cleans :
      (connected : ℕ → Bool) (memory : Memory) (b : Broker)
      → Step auth b (cleanup_client_cons connected memory b)
  publishes :
      (connected : ℕ → Bool) (memory : Memory) (b : Broker) (topic content : List ℕ) (qos : ℕ)
      (retained : Bool)
      → Step auth b (local_publish connected memory b topic content qos retained).1
  subscribes :
      (memory : Bool) (b : Broker) (topic : List ℕ) (qos : ℕ)
      → Step auth b (local_subscribe memory b topic qos).1
  unsubscribes : (b : Broker) (topic : List ℕ) → Step auth b (local_unsubscribe b topic).1

-- Any number of steps.
pub data Run (auth : Option Auth) : Broker → Broker → Type 0 where
  done : (b : Broker) → Run auth b b
  more : (b b' b'' : Broker) → Run auth b b' → Step auth b' b'' → Run auth b b''
