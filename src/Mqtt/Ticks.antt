-- ===== src/Mqtt/Ticks.antt =====
-- src/mqtt.c: what the timer comes to: a keepalive, and a new connection.
use u_mqttbroker.Base.{
  ℕ, zero, suc, ◌+◌, ◌-◌, ◌/◌, ◌%◌, ◌^◌, ◌<◌, ◌≡◌, inl, inr, refl, subst, sym, Bool, true, false,
  List, [], ◌∷◌, ◌++◌, append_assoc, arith, if◌then◌else◌, ltb, Bool-cases,
}
use u_mqttbroker.Mqtt.{
  MqttClient, Event, tcp_reconnect_req, tcp_reconnect, mqtt_data, mqtt_keepalive_send, post,
  timeout, mqtt_reconnect_timeout, timer_cb,
}

-- The timer's calls, one a second.
abbrev pub ticks : ℕ → MqttClient → MqttClient
ticks zero c = c
ticks (suc n) c = ticks n (timer_cb c)

-- What the end of the wait asks for.
abbrev pub wakes : Bool → List Event
wakes cb = post ∷ (if cb then timeout ∷ [] else [])

-- For `n` seconds the client waits, and in the next one it is to connect.
abbrev pub Reconnects : ℕ → List Event → Bool → MqttClient → Type 0
Reconnects n events cb c =
    ((ticks n c).conn_state ≡ tcp_reconnect_req)
    × ((ticks n c).reconnect_tick ≡ mqtt_reconnect_timeout)
    × ((ticks (suc n) c).conn_state ≡ tcp_reconnect)
    × ((ticks (suc n) c).reconnect_tick ≡ 0)
    × ((ticks (suc n) c).events ≡ events ++ wakes cb)

reconnect_last :
    (c : MqttClient)
    → c.conn_state ≡ tcp_reconnect_req
    → c.reconnect_tick ≡ mqtt_reconnect_timeout
    → ((timer_cb c).conn_state ≡ tcp_reconnect)
      × ((timer_cb c).reconnect_tick ≡ 0)
      × ((timer_cb c).events ≡ c.events ++ wakes c.callbacks.timeout_cb)
unfolding timer_cb
reconnect_last c s t =
    let e : ltb mqtt_reconnect_timeout ((c.reconnect_tick + 1) % 2 ^ 32) ≡ true =
      ground (arith, t) in
    elim (Bool-cases c.callbacks.timeout_cb) [
      | inl b ↦
          rw (timer_cb, s, e, b) (refl, refl, append_assoc c.events (post ∷ []) (timeout ∷ []))
      | inr b ↦ rw (timer_cb, s, e, b) (refl, refl, refl)
    ]

reconnect_wait :
    (c : MqttClient)
    → c.conn_state ≡ tcp_reconnect_req
    → c.reconnect_tick < mqtt_reconnect_timeout
    → timer_cb c
      ≡ record c { reconnect_tick = c.reconnect_tick + 1; send_timeout = c.send_timeout - 1 }
unfolding timer_cb
reconnect_wait c s t =
    let m : (c.reconnect_tick + 1) % 2 ^ 32 ≡ c.reconnect_tick + 1 = omega (arith, t) in
    let e : ltb mqtt_reconnect_timeout (c.reconnect_tick + 1) ≡ false = ground (arith, t) in
    rw (timer_cb, s, m, e) refl

-- A client that waits for a new connection stays so for as many seconds as the timeout leaves, and
-- is told to connect in the next one, with its task posted and the callback of the timeout called
-- if it is set.
pub reconnect_lem :
    (n : ℕ) (c : MqttClient)
    → c.conn_state ≡ tcp_reconnect_req
    → c.reconnect_tick + n ≡ mqtt_reconnect_timeout
    → Reconnects n c.events c.callbacks.timeout_cb c
reconnect_lem zero c s t =
    let t' : c.reconnect_tick ≡ mqtt_reconnect_timeout = omega (arith, t) in
    let l = reconnect_last c s t' in (s, t', l.0, l.1, l.2)
reconnect_lem (suc n) c s t =
    subst (Reconnects n c.events c.callbacks.timeout_cb)
      (sym (reconnect_wait c s (omega (arith, t))))
      (reconnect_lem n
        (record c { reconnect_tick = c.reconnect_tick + 1; send_timeout = c.send_timeout - 1 }) s
        (omega (arith, t)))

-- For `n` seconds the client stays connected, and in the next one it is to send a keepalive.
abbrev pub KeepsAlive : ℕ → List Event → MqttClient → Type 0
KeepsAlive n events c =
    ((ticks n c).conn_state ≡ mqtt_data)
    × ((ticks (suc n) c).conn_state ≡ mqtt_keepalive_send)
    × ((ticks (suc n) c).events ≡ events ++ post ∷ [])

keepalive_last :
    (c : MqttClient)
    → c.conn_state ≡ mqtt_data
    → c.keep_alive_tick ≡ c.connect_info.keepalive / 2
    → c.connect_info.keepalive < 2 ^ 32
    → ((timer_cb c).conn_state ≡ mqtt_keepalive_send)
      × ((timer_cb c).events ≡ c.events ++ post ∷ [])
unfolding timer_cb
keepalive_last c s t k =
    let m : (c.keep_alive_tick + 1) % 2 ^ 32 ≡ c.keep_alive_tick + 1 = omega (arith, t, k) in
    let e : ltb (c.connect_info.keepalive / 2) (c.keep_alive_tick + 1) ≡ true = ground (arith, t) in
    rw (timer_cb, s, m, e) (refl, refl)

keepalive_wait :
    (c : MqttClient)
    → c.conn_state ≡ mqtt_data
    → c.keep_alive_tick < c.connect_info.keepalive / 2
    → c.connect_info.keepalive < 2 ^ 32
    → timer_cb c
      ≡ record c { keep_alive_tick = c.keep_alive_tick + 1; send_timeout = c.send_timeout - 1 }
unfolding timer_cb
keepalive_wait c s t k =
    let m : (c.keep_alive_tick + 1) % 2 ^ 32 ≡ c.keep_alive_tick + 1 = omega (arith, t, k) in
    let e : ltb (c.connect_info.keepalive / 2) (c.keep_alive_tick + 1) ≡ false =
      ground (arith, t) in
    rw (timer_cb, s, m, e) refl

-- A client that is connected and sends nothing stays so while no more than half of its keepalive
-- time is over, and is told to send a keepalive in the next second, with its task posted.
pub keepalive_lem :
    (n : ℕ) (c : MqttClient)
    → c.conn_state ≡ mqtt_data
    → c.keep_alive_tick + n ≡ c.connect_info.keepalive / 2
    → c.connect_info.keepalive < 2 ^ 32
    → KeepsAlive n c.events c
keepalive_lem zero c s t k = let l = keepalive_last c s (omega (arith, t)) k in (s, l.0, l.1)
keepalive_lem (suc n) c s t k =
    subst (KeepsAlive n c.events) (sym (keepalive_wait c s (omega (arith, t)) k)) (
      keepalive_lem n
        (record c { keep_alive_tick = c.keep_alive_tick + 1; send_timeout = c.send_timeout - 1 }) s
        (omega (arith, t)) k)
