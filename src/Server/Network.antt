-- ===== src/Server/Network.antt =====
-- src/mqtt_server.cpp: the table of the network connections, and the loop that serves them. What the
-- `WiFiClient`s say is a parameter.
pub mod Accepting
pub mod Visits
pub mod Steps
use u_mqttbroker.Base.{
  ℕ, zero, suc, ◌≡◌, inl, inr, refl, ap, subst, ◌∙◌, Bool, true, false, not, ◌&&◌, Option, none,
  some, List, [], ◌∷◌, if◌then◌else◌, ltb, ◌==◌, length, Bool-cases, Option-cases,
}
use u_mqttbroker.Retained.{Memory}
use u_mqttbroker.Server.{Broker, Client, stop, log, mqtt_buf_size}
use u_mqttbroker.Server.Close.{discon_cb}
use u_mqttbroker.Server.Task.{connected_cb}
use u_mqttbroker.Server.Receive.{recv_cb}
use u_mqttbroker.Server.Receive.Connect.{Auth}
use u_mqttbroker.Server.Receive.Session.{Outside}
use u_mqttbroker.Server.Run.{Step, receives, connects, disconnects, Run, done, more}

-- `clientcon`: an entry of the array, known by its address, with its peer.
pub record Conn : Type 0 where
  pub pcon : ℕ
  pub remote_ip : ℕ
  pub remote_port : ℕ
  pub tobedeleted : Bool

-- `clientcons`, of which NULL is `none`.
abbrev pub Conns : Type 0
Conns = List (Option Conn)

abbrev pub is_peer : ℕ → ℕ → Option Conn → Bool
is_peer ip port none = false
is_peer ip port (some c) = (port == c.remote_port) && (ip == c.remote_ip)

-- `get_client_id`: the index of a peer's entry, of which -1 is `none`.
abbrev pub index_loop : ℕ → ℕ → ℕ → Conns → Option ℕ
index_loop ip port i [] = none
index_loop ip port i (e ∷ conns) =
    let rest = index_loop ip port (suc i) conns in if is_peer ip port e then some i else rest

unfoldable pub get_client_id : Conns → ℕ → ℕ → Option ℕ
get_client_id conns ip port = index_loop ip port 0 conns

-- The first entry that is free is taken; `none` where there is none.
abbrev pub put_conn : Conn → Conns → Option Conns
put_conn c [] = none
put_conn c (none ∷ conns) = some (some c ∷ conns)
put_conn c (some d ∷ conns) = elim (put_conn c conns) [
  | none ↦ none
  | some rest ↦ some (some d ∷ rest)
]

-- What `MQTT_ClientCon_connected_cb` gets from outside.
pub record Accept : Type 0 where
  pub zalloc : Option Client
  pub free_heap : ℕ
  pub agrees : ℕ → ℕ → Bool
  pub memory : Bool

-- `add_new_client`: a connection for which there is no entry is ended.
unfoldable pub add_new_client : Accept → Conns → Broker → Conn → Conns × Broker
add_new_client a conns b c = elim (put_conn (record c { tobedeleted = false }) conns) [
  | none ↦ (conns, log b (stop c.pcon))
  | some conns' ↦ (conns', connected_cb a.zalloc a.free_heap a.agrees true a.memory b c.pcon)
]

-- `Network_server_loop`, for a connection that `accept` gives.
unfoldable pub server_loop : Accept → Conns → Broker → Conn → Conns × Broker
unfolding get_client_id add_new_client
server_loop a conns b c = elim (get_client_id conns c.remote_ip c.remote_port) [
  | none ↦ add_new_client a conns b c
  | some i ↦ (conns, b)
]

-- What the connections say: the bytes that are there, and whether they are open.
pub record Wifi : Type 0 where
  pub available : ℕ → List ℕ
  pub connected : ℕ → Bool

-- How a round ends: with a result, or with more bytes for one entry than `buf` has, or with a handler
-- that does not end in 513 rounds.
pub data Outcome {ℓ} (A : Type ℓ) : Type ℓ where
  finished : A → Outcome A
  overrun : Outcome A
  unfinished : Outcome A

-- One entry of `Network_clients_loop`: two bytes or more are handed on; an entry whose connection has
-- ended is removed in the second round that finds it so.
unfoldable pub serve :
    (ℕ → Outside) → Memory → Wifi → Broker → Conn → Outcome (Option Conn × Broker)
serve outside memory wifi b c =
    let bytes = wifi.available c.pcon in
    if ltb 1 (length bytes)
    then (if ltb mqtt_buf_size (length bytes)
        then overrun
        else elim (recv_cb 513 outside b c.pcon bytes) [
          | none ↦ unfinished
          | some b' ↦ finished (some c, b')
        ])
    else if not (wifi.connected c.pcon)
    then (if not c.tobedeleted
        then finished (some (record c { tobedeleted = true }), b)
        else finished (none, discon_cb wifi.connected memory b c.pcon))
    else finished (some c, b)

unfoldable pub clients_loop :
    (ℕ → Outside) → Memory → Wifi → Conns → Broker → Outcome (Conns × Broker)
unfolding serve
clients_loop outside memory wifi [] b = finished ([], b)
clients_loop outside memory wifi (none ∷ conns) b =
    elim (clients_loop outside memory wifi conns b) [
      | finished r ↦ finished (none ∷ r.0, r.1)
      | overrun ↦ overrun
      | unfinished ↦ unfinished
    ]
clients_loop outside memory wifi (some c ∷ conns) b = elim (serve outside memory wifi b c) [
  | finished s ↦ elim (clients_loop outside memory wifi conns s.1) [
    | finished r ↦ finished (s.0 ∷ r.0, r.1)
    | overrun ↦ overrun
    | unfinished ↦ unfinished
  ]
  | overrun ↦ overrun
  | unfinished ↦ unfinished
]

-- The connection that a server has, if any.
abbrev pub accept : Option (Accept × Conn) → Conns → Broker → Conns × Broker
accept none conns b = (conns, b)
accept (some x) conns b = server_loop x.0 conns b x.1

-- `MQTT_network_loop`, with what the server has, and the one for TLS; without TLS that is `none`.
unfoldable pub network_loop :
    (ℕ → Outside)
    → Memory
    → Wifi
    → Option (Accept × Conn)
    → Option (Accept × Conn)
    → Conns
    → Broker
    → Outcome (Conns × Broker)
unfolding server_loop clients_loop
network_loop outside memory wifi new secure conns b =
    let (conns₁, b₁) = accept new conns b in
    let (conns₂, b₂) = accept secure conns₁ b₁ in clients_loop outside memory wifi conns₂ b₂
