-- ===== src/Server/Close.antt =====
-- src/mqtt_server.cpp: the ways in which a client is removed.
use u_mqttbroker.Base.{
  ℕ, ◌-◌, Bool, true, false, Option, none, some, List, [], ◌∷◌, ◌++◌, if◌then◌else◌, ◌==◌, ltb,
  str_eq,
}
use u_mqttbroker.TopicList
use u_mqttbroker.Retained.{Memory}
use u_mqttbroker.Retained.Image.{str_of}
use u_mqttbroker.Server.{
  Broker, Client, ClientId, no_id, zero_len_id, id, post_dummy, disconnect_cb, nobody, dummy,
  client, log, find_client, put_client, unlink,
}
use u_mqttbroker.Server.Publish.{publish, activate_next_client, retain}

-- The last will: `will_data_len` is the length of `will_data`.
unfoldable pub publish_will : (ℕ → Bool) → Memory → Broker → Client → Broker
unfolding publish activate_next_client
publish_will connected memory b c = elim c.connect_info.will_topic [
  | none ↦ b
  | some topic ↦
      let content = str_of c.connect_info.will_data in
      let b₁ = activate_next_client connected (publish b topic content) in
      if c.connect_info.will_retain
      then retain memory b₁ topic content c.connect_info.will_qos
      else b₁
]

-- The call of `local_disconnect_cb`, not for the array `zero_len_id`.
abbrev pub notify : Broker → Client → Broker
notify b c = elim c.connect_info.client_id [
  | no_id ↦ b
  | zero_len_id ↦ b
  | id s ↦ if b.local_disconnect_cb then log b (disconnect_cb c.pcon s) else b
]

-- `MQTT_server_deleteClientCon`, for a client of either list. What is freed with it is its memory
-- alone, which the lists hold no longer; its subscriptions go last.
unfoldable pub delete_client_con : (ℕ → Bool) → Memory → Broker → Client → Broker
unfolding publish_will
delete_client_con connected memory b c =
    let b₁ = record b {
      clientcon_list = unlink c.address b.clientcon_list;
      aside = unlink c.address b.aside;
    } in
    let b₂ = publish_will connected memory (notify b₁ c) c in
    record b₂ { topic_list = (TopicList.delete b₂.topic_list (some c.address) none).1 }

-- The connection now belongs to `dummy_clientcon`, for which the task is posted.
unfoldable pub disconnect_client_con : (ℕ → Bool) → Memory → Broker → Client → Broker
unfolding delete_client_con
disconnect_client_con connected memory b c =
    let b₁ = record b {
      dummy_pcon = some c.pcon;
      reverse = λ p. if p == c.pcon then dummy else b.reverse p;
    } in
    log (delete_client_con connected memory b₁ c) post_dummy

-- The loop over `clientcon_list`, which takes the successor before a client is deleted.
abbrev pub cleanup_loop : (ℕ → Bool) → Memory → Broker → List Client → Broker
cleanup_loop connected memory b [] = b
cleanup_loop connected memory b (c ∷ clients) = elim (find_client c.address b.clientcon_list) [
  | none ↦ cleanup_loop connected memory b clients
  | some d ↦
      let b₁ = if connected d.pcon then b else delete_client_con connected memory b d in
      cleanup_loop connected memory b₁ clients
]

unfoldable pub cleanup_client_cons : (ℕ → Bool) → Memory → Broker → Broker
cleanup_client_cons connected memory b = cleanup_loop connected memory b b.clientcon_list

-- `os_strcmp(id, client_id) == 0`; NULL is equal to nothing.
abbrev pub has_id : List ℕ → ClientId → Bool
has_id s no_id = false
has_id s zero_len_id = str_eq s []
has_id s (id t) = str_eq s t

abbrev pub client_by_id : List ℕ → List Client → Option Client
client_by_id s [] = none
client_by_id s (c ∷ clients) =
    let rest = client_by_id s clients in if has_id s c.connect_info.client_id then some c else rest

unfoldable pub delete_client_by_id : (ℕ → Bool) → Memory → Broker → List ℕ → Bool × Broker
delete_client_by_id connected memory b s = elim (client_by_id s b.clientcon_list) [
  | none ↦ (true, b)
  | some c ↦ (true, disconnect_client_con connected memory b c)
]

-- `mqtt_server_timer`, each second for a client.
unfoldable pub server_timer : (ℕ → Bool) → Memory → Broker → Client → Broker
unfolding disconnect_client_con
server_timer connected memory b c =
    let c' = record c { send_timeout = c.send_timeout - 1 } in
    if ltb 0 c.connection_timeout
    then record b {
      clientcon_list =
          put_client (record c' { connection_timeout = c.connection_timeout - 1 }) b.clientcon_list;
    }
    else disconnect_client_con connected memory
        (record b { clientcon_list = put_client c' b.clientcon_list }) c'

-- `MQTT_ClientCon_discon_cb`, when a connection has ended.
unfoldable pub discon_cb : (ℕ → Bool) → Memory → Broker → ℕ → Broker
discon_cb connected memory b pcon = elim (b.reverse pcon) [
  | nobody ↦ b
  | dummy ↦ record b { dummy_pcon = none }
  | client address ↦ elim (find_client address (b.clientcon_list ++ b.aside)) [
    | none ↦ b
    | some c ↦ delete_client_con connected memory b c
  ]
]
