-- ===== src/Mqtt/Wrapper.antt =====
-- src/MQTT.cpp: the class around the client. What the user's callbacks are called with is a list.
use u_mqttbroker.Base.{
  ℕ, Bool, true, false, Option, none, some, List, [], ◌∷◌, ◌++◌, if◌then◌else◌, leb, c_string,
}
use u_mqttbroker.Proto.{Parser}
use u_mqttbroker.Mqtt.{
  MqttClient, ConnState, wifi_init, tcp_disconnecting, tcp_disconnected,
  tcp_reconnect_disconnecting, tcp_reconnect_req, tcp_reconnect, tcp_connecting,
  mqtt_connect_sending, mqtt_data, mqtt_keepalive_send, mqtt_deleting, mqtt_deleted, Event,
  connected, disconnected, published, received, init_connection, init_client, init_lwt, set_user_id,
  set_user_pwd, disconnect_client, delete_client,
}
use u_mqttbroker.Mqtt.Queueing
use u_mqttbroker.Mqtt

-- The class `MQTT`; the user's callbacks by whether they are set.
pub record Wrapper : Type 0 where
  pub mqtt_client : MqttClient
  pub on_connected_cb : Bool
  pub on_disconnected_cb : Bool
  pub on_published_cb : Bool
  pub on_data_cb : Bool
  pub on_data_raw_cb : Bool

-- A call of a callback of the user; `wild_copy` stands for a copy from NULL.
pub data Call : Type 0 where
  user_connected user_disconnected user_published wild_copy : Call
  user_data_raw : Option (List ℕ) → Option (List ℕ) → Call
  user_data : List ℕ → List ℕ → Call

-- The constructor.
unfoldable pub create : Option (List ℕ) → List ℕ → ℕ → Wrapper
unfolding init_connection init_client init_lwt
create client_id host port =
    let c = init_connection host port false in
    let c₁ = (init_client c client_id (some []) (some []) 120 true).1 in
    let c₂ =
      init_lwt c₁ (b'/' ∷ b'l' ∷ b'w' ∷ b't' ∷ [])
        (b'o' ∷ b'f' ∷ b'f' ∷ b'l' ∷ b'i' ∷ b'n' ∷ b'e' ∷ []) 0 false in
    record {
      mqtt_client = record c₂ {
        user_data = true;
        callbacks = record {
          connected_cb = true;
          disconnected_cb = true;
          published_cb = true;
          data_cb = true;
          timeout_cb = true;
        };
      };
      on_connected_cb = false;
      on_disconnected_cb = false;
      on_published_cb = false;
      on_data_cb = false;
      on_data_raw_cb = false;
    }

-- The destructor.
unfoldable pub destroy : Wrapper → MqttClient
unfolding delete_client
destroy w = delete_client w.mqtt_client

unfoldable pub set_client_id : Wrapper → List ℕ → Wrapper
unfolding set_user_id
set_client_id w client_id = record w { mqtt_client = set_user_id w.mqtt_client client_id }

unfoldable pub set_pwd : Wrapper → List ℕ → List ℕ → Wrapper
unfolding set_user_pwd
set_pwd w user pwd = record w { mqtt_client = set_user_pwd w.mqtt_client user pwd }

unfoldable pub connect : Wrapper → Wrapper
unfolding Mqtt.connect
connect w = record w { mqtt_client = Mqtt.connect w.mqtt_client }

unfoldable pub disconnect : Wrapper → Wrapper
unfolding disconnect_client
disconnect w = record w { mqtt_client = disconnect_client w.mqtt_client }

-- The place of a state in `tConnState`, in which TCP_CONNECTED is 14.
abbrev pub state_code : ConnState → ℕ
state_code wifi_init = 0
state_code tcp_disconnecting = 5
state_code tcp_disconnected = 7
state_code tcp_reconnect_disconnecting = 9
state_code tcp_reconnect_req = 10
state_code tcp_reconnect = 11
state_code tcp_connecting = 12
state_code mqtt_connect_sending = 16
state_code mqtt_data = 19
state_code mqtt_keepalive_send = 20
state_code mqtt_deleting = 23
state_code mqtt_deleted = 24

unfoldable pub is_connected : Wrapper → Bool
is_connected w = leb 14 (state_code w.mqtt_client.conn_state)

-- What the client's functions return, with the class around the client.
abbrev around : Wrapper → Option (Bool × MqttClient) → Option (Bool × Wrapper)
around w o = elim o [ none ↦ none | some r ↦ some (r.0, record w { mqtt_client = r.1 }) ]

unfoldable pub publish :
    ℕ → Parser → List ℕ → Wrapper → Option (List ℕ) → List ℕ → ℕ → ℕ → Option (Bool × Wrapper)
unfolding Queueing.publish
publish fuel stack buffer w topic buf qos retain =
    around w (Queueing.publish fuel stack buffer w.mqtt_client topic buf qos retain)

unfoldable pub subscribe :
    ℕ → Parser → List ℕ → Wrapper → Option (List ℕ) → ℕ → Option (Bool × Wrapper)
unfolding Queueing.subscribe
subscribe fuel stack buffer w topic qos =
    around w (Queueing.subscribe fuel stack buffer w.mqtt_client topic qos)

-- `_onMqttDataCb`: a topic that is NULL comes with the length of the message, data that is NULL with
-- the length 0.
unfoldable pub on_mqtt_data_cb : Wrapper → Option (List ℕ) → Option (List ℕ) → List Call
on_mqtt_data_cb w topic content =
    let strings : List Call = elim topic [
      | none ↦ wild_copy ∷ []
      | some t ↦ user_data (c_string t) (elim content [ none ↦ [] | some s ↦ c_string s ]) ∷ []
    ] in
    (if w.on_data_raw_cb then user_data_raw topic content ∷ [] else [])
    ++ (if w.on_data_cb then strings else [])

abbrev called : Bool → Call → List Call
called cb call = if cb then call ∷ [] else []

-- `mqttConnectedCb`, `mqttDisconnectedCb`, `mqttPublishedCb`, `mqttDataCb` and `mqttTimeoutCb`, by
-- the event of the client that calls them.
abbrev pub forward : Wrapper → Event → List Call
unfolding on_mqtt_data_cb
forward w event = elim event [
  | connected ↦ called w.on_connected_cb user_connected
  | disconnected ↦ called w.on_disconnected_cb user_disconnected
  | published ↦ called w.on_published_cb user_published
  | received topic content ↦ on_mqtt_data_cb w topic content
  | _ ↦ []
]

unfoldable pub callback : Wrapper → Event → List Call
callback w event = if w.mqtt_client.user_data then forward w event else []
