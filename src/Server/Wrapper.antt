-- ===== src/Server/Wrapper.antt =====
-- src/uMQTTBroker.cpp: the class around the broker. What a subclass overrides is a parameter; the
-- local client's messages and the ends of connections are the broker's events.
use u_mqttbroker.Base.{ℕ, Bool, true, false, none, some, List, [], ◌∷◌, c_string}
use u_mqttbroker.Retained.{Memory, Store}
use u_mqttbroker.Server.{
  Broker, ClientId, no_id, zero_len_id, id, Event, data_cb, disconnect_cb, count_client_con,
  get_client_id, get_client_pcon,
}
use u_mqttbroker.Server.Publish.{local_publish, local_subscribe, local_unsubscribe}
use u_mqttbroker.Server.Close.{cleanup_client_cons}
use u_mqttbroker.Server.Receive.Connect.{Auth}
use u_mqttbroker.Server.Run.{server_start, server_start_tls, on_data, on_disconnect, on_retain}

-- What a subclass says, and the peers' addresses.
pub record User : Type 0 where
  pub remote_ip : ℕ → ℕ
  pub on_connect : ℕ → ℕ → Bool
  pub on_auth : List ℕ → List ℕ → List ℕ → ℕ → Bool

-- The class without a subclass.
abbrev pub plain : (ℕ → ℕ) → User
plain remote_ip = record {
  remote_ip = remote_ip;
  on_connect = λ addr count. true;
  on_auth = λ user password i pcon. true;
}

-- `uMQTTBroker`
pub record MqttBroker : Type 0 where
  pub portno : ℕ
  pub max_subscriptions : ℕ
  pub max_retained_topics : ℕ

-- The constructor: the broker gets its callbacks.
unfoldable pub create : ℕ → ℕ → ℕ → Broker → MqttBroker × Broker
unfolding on_data on_disconnect on_retain
create portno max_subscriptions max_retained_topics b = (
  record {
    portno = portno;
    max_subscriptions = max_subscriptions;
    max_retained_topics = max_retained_topics;
  },
  on_retain (on_data (on_disconnect b true) true) true,
)

-- `_onConnect` and `_onAuth`, as the broker's handlers take them.
abbrev pub connects : User → ℕ → ℕ → Bool
connects user pcon client_count = user.on_connect (user.remote_ip pcon) client_count

abbrev pub id_string : ClientId → List ℕ
id_string no_id = []
id_string zero_len_id = []
id_string (id s) = s

abbrev pub authorizes : User → Auth
authorizes user username password client_id pcon =
    user.on_auth username password (id_string client_id) pcon

-- A call of a method of the subclass.
pub data Call : Type 0 where
  told_data : List ℕ → List ℕ → Call
  told_disconnect : ℕ → List ℕ → Call

-- `_onData` and `_onDisconnect`, by the event of the broker that calls them.
unfoldable pub calls : User → Event → List Call
calls user event = elim event [
  | data_cb topic content ↦ told_data (c_string topic) content ∷ []
  | disconnect_cb pcon client_id ↦ told_disconnect (user.remote_ip pcon) client_id ∷ []
  | _ ↦ []
]

-- `init`, without and with TLS.
unfoldable pub init : Bool → Bool → (Store → Store) → MqttBroker → Broker → Broker
unfolding server_start
init topic_memory retained_memory load w b =
    (server_start topic_memory retained_memory load w.max_subscriptions w.max_retained_topics b).1

unfoldable pub init_tls : Bool → Bool → Bool → (Store → Store) → MqttBroker → ℕ → Broker → Broker
unfolding server_start_tls
init_tls tls topic_memory retained_memory load w portno_tls b =
    (server_start_tls tls topic_memory retained_memory load w.portno portno_tls w.max_subscriptions
      w.max_retained_topics b).1

unfoldable pub client_count : Broker → ℕ
unfolding count_client_con
client_count b = count_client_con b

-- `getClientId`: whether there is a client, and the id, which stays as it is without one.
unfoldable pub client_id_at : Broker → ℕ → List ℕ → Bool × List ℕ
unfolding get_client_id
client_id_at b index client_id = elim (get_client_id b index) [
  | none ↦ (false, client_id)
  | some i ↦ elim i [ no_id ↦ (false, client_id) | zero_len_id ↦ (true, []) | id s ↦ (true, s) ]
]

unfoldable pub client_addr_at : User → Broker → ℕ → ℕ → Bool × ℕ
unfolding get_client_pcon
client_addr_at user b index addr = elim (get_client_pcon b index) [
  | none ↦ (false, addr)
  | some pcon ↦ (true, user.remote_ip pcon)
]

unfoldable pub publish : (ℕ → Bool) → Memory → Broker → List ℕ → List ℕ → ℕ → Bool → Bool × Broker
unfolding local_publish
publish connected memory b topic content qos retain =
    local_publish connected memory b topic content qos retain

unfoldable pub subscribe : Bool → Broker → List ℕ → ℕ → Bool × Broker
unfolding local_subscribe
subscribe memory b topic qos = local_subscribe memory b topic qos

unfoldable pub unsubscribe : Broker → List ℕ → Bool × Broker
unfolding local_unsubscribe
unsubscribe b topic = local_unsubscribe b topic

unfoldable pub cleanup_connections : (ℕ → Bool) → Memory → Broker → Broker
unfolding cleanup_client_cons
cleanup_connections connected memory b = cleanup_client_cons connected memory b
