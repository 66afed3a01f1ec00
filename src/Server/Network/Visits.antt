-- ===== src/Server/Network/Visits.antt =====
-- src/mqtt_server.cpp, MQTT_network_loop: a round, as what it does to the table and calls for its
-- entries.
use u_mqttbroker.Base.{
  ℕ, ◌≤◌, ◌<◌, ◌≡◌, ◌⊎◌, true, false, Option, none, some, [], ◌∷◌, ◌++◌, map, if◌then◌else◌, ltb,
  length,
}
use u_mqttbroker.Retained.{Memory}
use u_mqttbroker.Server.{Broker, mqtt_buf_size}
use u_mqttbroker.Server.Close.{discon_cb}
use u_mqttbroker.Server.Receive.{recv_cb}
use u_mqttbroker.Server.Receive.Connect.{Auth}
use u_mqttbroker.Server.Receive.Session.{Outside}
use u_mqttbroker.Server.Run.{Run}
use u_mqttbroker.Server.Network.{Conn, Conns, Accept, Wifi, Outcome, finished, overrun, unfinished}
use u_mqttbroker.Server.Network.Accepting.{Accepted}

-- Two bytes or more are there.
abbrev pub IsReadable : Wifi → Conn → Type 0
IsReadable wifi c = 2 ≤ length (wifi.available c.pcon)

-- Nothing is there to read, and the connection has ended.
abbrev pub HasEnded : Wifi → Conn → Type 0
HasEnded wifi c = (length (wifi.available c.pcon) < 2) × (wifi.connected c.pcon ≡ false)

-- An entry behind a round: one that has ended is marked, and is free if it was marked before.
abbrev pub aged : Wifi → Option Conn → Option Conn
aged wifi none = none
aged wifi (some c) =
    if ltb 1 (length (wifi.available c.pcon))
    then some c
    else if wifi.connected c.pcon
    then some c
    else if c.tobedeleted
    then none
    else some (record c { tobedeleted = true })

-- What a round calls for the entries, in the order of the table: the handler for what was read from
-- an entry's connection, with that connection and those bytes, and the one for the end of a
-- connection that was marked before.
pub data Visits (outside : ℕ → Outside) (memory : Memory) (wifi : Wifi)
    : Conns → Broker → Broker → Type 0 where
  behind : (b : Broker) → Visits outside memory wifi [] b b
  free :
      (conns : Conns) (b b' : Broker)
      → Visits outside memory wifi conns b b'
      → Visits outside memory wifi (none ∷ conns) b b'
  reads :
      (c : Conn) (conns : Conns) (b b₁ b' : Broker)
      → IsReadable wifi c
      → length (wifi.available c.pcon) ≤ mqtt_buf_size
      → recv_cb 513 outside b c.pcon (wifi.available c.pcon) ≡ some b₁
      → Visits outside memory wifi conns b₁ b'
      → Visits outside memory wifi (some c ∷ conns) b b'
  ends :
      (c : Conn) (conns : Conns) (b b' : Broker)
      → HasEnded wifi c
      → c.tobedeleted ≡ true
      → Visits outside memory wifi conns (discon_cb wifi.connected memory b c.pcon) b'
      → Visits outside memory wifi (some c ∷ conns) b b'
  waits :
      (c : Conn) (conns : Conns) (b b' : Broker)
      → length (wifi.available c.pcon) < 2
      → (wifi.connected c.pcon ≡ true) ⊎ (c.tobedeleted ≡ false)
      → Visits outside memory wifi conns b b'
      → Visits outside memory wifi (some c ∷ conns) b b'

module _ (auth : Option Auth) (outside : ℕ → Outside) (memory : Memory) (wifi : Wifi) where
  -- The entries before one were visited.
  abbrev pub Stands : Conns → Broker → Conn → Broker → Type 0
  Stands conns b c b' =
      (before : Conns) × (after : Conns) × (conns ≡ before ++ some c ∷ after)
      × Visits outside memory wifi before b b'
      × Run auth b b'

  -- All entries were visited; or one has more than 512 bytes; or the handler for one does not end.
  abbrev pub Visited : Conns → Broker → Outcome (Conns × Broker) → Type 0
  Visited conns b (finished r) =
      (r.0 ≡ map (aged wifi) conns) × Visits outside memory wifi conns b r.1 × Run auth b r.1
  Visited conns b overrun =
      (c : Conn) × (b' : Broker) × Stands conns b c b'
      × (mqtt_buf_size < length (wifi.available c.pcon))
  Visited conns b unfinished =
      (c : Conn) × (b' : Broker) × Stands conns b c b'
      × IsReadable wifi c
      × (length (wifi.available c.pcon) ≤ mqtt_buf_size)
      × (recv_cb 513 outside b' c.pcon (wifi.available c.pcon) ≡ none)

  -- The new connections are accepted, the one with TLS behind the other, and the entries visited.
  abbrev pub Reaches :
      Option (Accept × Conn)
      → Option (Accept × Conn)
      → Conns
      → Broker
      → Outcome (Conns × Broker)
      → Type 0
  Reaches new secure conns b o =
      (r₁ : Conns × Broker) × (r₂ : Conns × Broker) × Accepted new conns b r₁
      × Accepted secure r₁.0 r₁.1 r₂
      × Run auth b r₂.1
      × Visited r₂.0 r₂.1 o
