-- ===== src/Server/Tests.antt =====
-- Runs of the broker with one client.
mod Handlers
mod Runs
use u_mqttbroker.Base.{refl, true, false, none, some, List, [], ◌∷◌, replicate}
use u_mqttbroker.TopicList.{live, Entry, free_entry}
use u_mqttbroker.Server.{Broker, Client, mqtt_data, empty_info, nobody}
use u_mqttbroker.Server.Close.{delete_client_con}
use u_mqttbroker.Server.Delivery.{Pending}
use u_mqttbroker.Server.Removal.{Removed, delete_client_con-Removed}

-- The client 3, with an empty queue of 64 bytes.
abbrev pub guest : Client
guest = record {
  address = 3;
  pcon = 5;
  connection = record {
    msg_data = 0;
    msg_length = 0;
    message_id = 0;
    buffer = [];
    buffer_length = 512;
  };
  inbound = record { in_buffer = replicate 512 0; message_length = 0; message_length_read = 0 };
  connect_info = empty_info;
  conn_state = mqtt_data;
  msg_queue = record {
    buf = true;
    rb = record { buf = replicate 64 0; size = 64; p_r = 0; p_w = 0; fill_cnt = 0 };
  };
  send_timeout = 0;
  connection_timeout = 40;
  protocol_version = 4;
  pending_msg_type = 0;
  pending_msg_id = 0;
}

-- It has subscribed to "a".
abbrev pub entries : List Entry
entries = record { clientcon = some 3; topic = live (b'a' ∷ []); qos = 0 } ∷ free_entry ∷ []

abbrev pub broker : Broker
broker = record {
  clientcon_list = guest ∷ [];
  aside = [];
  topic_list = some entries;
  retained = record { retained_list = none; retained_cb = false };
  shared_out_buffer = replicate 512 0;
  reverse = λ p. nobody;
  dummy_pcon = none;
  local_data_cb = false;
  local_disconnect_cb = false;
  events = [];
}

abbrev idle : Pending
idle a = []

delete_client_con-Removed_example :
    Removed guest entries
      (delete_client_con (λ p. true) (record { topic = true; content = true }) broker guest)
delete_client_con-Removed_example =
    delete_client_con-Removed (λ p. true) (record { topic = true; content = true }) broker guest
      entries refl (refl, tt)
