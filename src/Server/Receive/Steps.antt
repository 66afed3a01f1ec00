-- ===== src/Server/Receive/Steps.antt =====
-- src/mqtt_server.cpp, MQTT_ClientCon_recv_cb: what all steps of the parser of a CONNECT have.
use u_mqttbroker.Base.{
  ℕ, ◌+◌, ◌/◌, ◌%◌, ◌^◌, ◌≡◌, ◌≢◌, inl, inr, ap, Bool, true, false, not, ◌||◌, Option, some, List,
  arith, ◌==◌, ltb, get_or, Option-cases, if◌then◌else◌, c_string,
}
use u_mqttbroker.Topics.{has_wildcards}
use u_mqttbroker.Msg.Build.{
  ConnectReturnCode, accepted, refuse_id_rejected, refuse_server_unavailable, refuse_not_authorized,
  return_code,
}
use u_mqttbroker.Server.{ConnectInfo, Inbound}
use u_mqttbroker.Server.Receive.Connect.{
  Step, go, refuse, drop_client, and_then, ConnectMemory, Auth, agrees, next_str, has_flag,
  read_client_id, read_will_data, read_will, read_username, read_password, check_auth, read_rest,
}

-- A step goes on at a place with a property, or refuses with a code that is not the one for success.
abbrev pub Reads : (ℕ → Type 0) → Step → Type 0
Reads at (go info used) = at used
Reads at (refuse info code) = code ≢ accepted
Reads at (drop_client info) = Unit {0}

pub refused : (code : ConnectReturnCode) → return_code code ≢ 0 → code ≢ accepted
refused code h e = h (ap return_code e)

Reads-if :
    (at : ℕ → Type 0) (s t : Step) (b : Bool)
    → Reads at s
    → Reads at t
    → Reads at (if b then s else t)
Reads-if at s t true h k = h
Reads-if at s t false h k = k

and_then-Reads :
    (at : ℕ → Type 0) (s : Step) (k : ConnectInfo → ℕ → Step)
    → Reads at s
    → ((info : ConnectInfo) (used : ℕ) → at used → Reads at (k info used))
    → Reads at (and_then s k)
and_then-Reads at (go info used) k h f = f info used h
and_then-Reads at (refuse info code) k h f = h
and_then-Reads at (drop_client info) k h f = tt

-- The property goes on behind each string that is found.
module _ (at : ℕ → Type 0) (inb : Inbound)
    (after : (used : ℕ) (s : ℕ × List ℕ)
      → at used
      → next_str inb used ≡ some s
      → at ((used + 2 + s.0) % 2 ^ 16))
    (memory : ConnectMemory) where
  pub read_client_id-Reads :
      (version : ℕ) (info : ConnectInfo) (used : ℕ)
      → at used
      → Reads at (read_client_id memory inb version info used)
  unfolding read_client_id
  read_client_id-Reads version info used h = elim (Option-cases (next_str inb used)) [
    | inl n ↦ rw (read_client_id, n) (refused refuse_id_rejected (omega arith))
    | inr (s, n) ↦
        let w = after used s h n in
        rw (read_client_id, n)
          (Reads-if at _ _ (ltb 80 s.0) (refused refuse_id_rejected (omega arith)) (
            Reads-if at _ _ (s.0 == 0)
              (Reads-if at _ _ ((version == 3) || not info.clean_session)
                (refused refuse_id_rejected (omega arith)) w)
              (Reads-if at _ _ memory.client_id w
                (refused refuse_server_unavailable (omega arith)))))
  ]

  read_will_data-Reads :
      (info : ConnectInfo) (used : ℕ) → at used → Reads at (read_will_data memory inb info used)
  read_will_data-Reads info used h = elim (Option-cases (next_str inb used)) [
    | inl n ↦ rw (read_will_data, n) tt
    | inr (s, n) ↦
        rw (read_will_data, n)
          (Reads-if at _ _ memory.will_data (after used s h n)
            (refused refuse_server_unavailable (omega arith)))
  ]

  read_will-Reads :
      (info : ConnectInfo) (used : ℕ) → at used → Reads at (read_will memory inb info used)
  unfolding read_will
  read_will-Reads info used h = elim (Option-cases (next_str inb used)) [
    | inl n ↦
        rw (read_will, n)
          (Reads-if at _ _ (not (has_flag 4 inb.in_buffer))
            (Reads-if at _ _
              (has_flag 32 inb.in_buffer || not (get_or inb.in_buffer 9 0 / 8 % 4 == 0)) tt h)
            tt)
    | inr (s, n) ↦
        rw (read_will, n)
          (Reads-if at _ _ (not (has_flag 4 inb.in_buffer))
            (Reads-if at _ _
              (has_flag 32 inb.in_buffer || not (get_or inb.in_buffer 9 0 / 8 % 4 == 0)) tt h)
            (Reads-if at _ _ memory.will_topic
              (Reads-if at _ _ (has_wildcards (c_string s.1) || (get_or (c_string s.1) 0 0 == b'$'))
                tt (read_will_data-Reads _ ((used + 2 + s.0) % 2 ^ 16) (after used s h n)))
              (refused refuse_server_unavailable (omega arith))))
  ]

  read_username-Reads :
      (info : ConnectInfo) (used : ℕ) → at used → Reads at (read_username memory inb info used)
  unfolding read_username
  read_username-Reads info used h = elim (Option-cases (next_str inb used)) [
    | inl n ↦ rw (read_username, n) (Reads-if at _ _ (not (has_flag 128 inb.in_buffer)) h tt)
    | inr (s, n) ↦
        rw (read_username, n)
          (Reads-if at _ _ (not (has_flag 128 inb.in_buffer)) h (
            Reads-if at _ _ memory.username (after used s h n)
              (refused refuse_server_unavailable (omega arith))))
  ]

  read_password-Reads :
      (info : ConnectInfo) (used : ℕ) → at used → Reads at (read_password memory inb info used)
  unfolding read_password
  read_password-Reads info used h = elim (Option-cases (next_str inb used)) [
    | inl n ↦
        rw (read_password, n)
          (Reads-if at _ _ (not (has_flag 64 inb.in_buffer)) h
            (Reads-if at _ _ (not (has_flag 128 inb.in_buffer)) tt tt))
    | inr (s, n) ↦
        rw (read_password, n)
          (Reads-if at _ _ (not (has_flag 64 inb.in_buffer)) h (
            Reads-if at _ _ (not (has_flag 128 inb.in_buffer)) tt (
              Reads-if at _ _ memory.password (after used s h n)
                (refused refuse_server_unavailable (omega arith)))))
  ]

  check_auth-Reads :
      (auth : Option Auth) (pcon : ℕ) (info : ConnectInfo) (used : ℕ)
      → at used
      → Reads at (check_auth auth pcon info used)
  unfolding check_auth
  check_auth-Reads auth pcon info used h =
      Reads-if at _ _ (agrees auth info pcon) h (refused refuse_not_authorized (omega arith))

  pub read_rest-Reads :
      (auth : Option Auth) (pcon : ℕ) (info : ConnectInfo) (used : ℕ)
      → at used
      → Reads at (read_rest memory auth pcon inb info used)
  unfolding read_rest
  read_rest-Reads auth pcon info used h =
      and_then-Reads at (read_will memory inb info used) _ (read_will-Reads info used h)
        λ info used h.
          and_then-Reads at (read_username memory inb info used) _ (read_username-Reads info used h)
            λ info used h.
              and_then-Reads at (read_password memory inb info used) _
                (read_password-Reads info used h) (check_auth-Reads auth pcon)
