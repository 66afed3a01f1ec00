-- ===== src/Msg/RoundTrip.antt =====
-- What `mqtt_msg_publish` has written, `mqtt_get_publish_topic` and `mqtt_get_publish_data` give back.
use u_mqttbroker.Base.{
  ℕ, ◌+◌, ◌-◌, ◌/◌, ◌%◌, ◌≤◌, ◌<◌, ◌≡◌, ap, ◌∙◌, true, some, List, [], ◌∷◌, ◌++◌, append_assoc,
  arith, if◌then◌else◌, ltb, leb, length, length-append, take, drop, drop_more, take-append,
}
use u_mqttbroker.Msg.{MessageType, first_byte}
use u_mqttbroker.Msg.Read.{read_length, get_total_length, get_publish_topic, get_publish_data}
use u_mqttbroker.Msg.Packet.{packet, remaining, string, u16_bytes}
use u_mqttbroker.Msg.Publishing.{publish_body}
use u_mqttbroker.Msg.Readers.{read_length_lem, get_u16-string, str_at_lem, string_there}
use u_mqttbroker.Msg.{Connection}
use u_mqttbroker.Msg.Build.{msg_publish}
use u_mqttbroker.Msg.Packet.{IsReady, message_bytes, next_id}
use u_mqttbroker.Msg.Publishing.{msg_publish_lem}

-- A packet that starts with a topic, regrouped with what follows it in the buffer.
module _ (first : ℕ) (topic tail rest : List ℕ) where
  abbrev body : List ℕ
  body = string topic ++ tail

  abbrev header : List ℕ
  header = first ∷ remaining (length body)

  abbrev buffer : List ℕ
  buffer = header ++ (string topic ++ (tail ++ rest))

  buffer_lem : first ∷ (remaining (length body) ++ body) ++ rest ≡ buffer
  buffer_lem =
      cc (append_assoc (remaining (length body)) body rest, append_assoc (string topic) tail rest)

  module _ (n : ℕ) (h : length body < 16384) (l : length header + length body ≤ n) where
    header_read : read_length buffer n ≡ (length header, length body)
    header_read =
        read_length_lem first (length body) (string topic ++ (tail ++ rest)) n h (omega arith)

    total_lem : get_total_length buffer n ≡ length header + length body
    unfolding get_total_length
    total_lem = grind (arith, ap (λ t. t.0) header_read, ap (λ t. t.1) header_read)

    topic_lem :
        length header + 2 < n
        → (get_publish_topic buffer n ≡ some (length header + 2, length topic))
          × (take (length topic) (drop (length header + 2) buffer) ≡ topic)
    unfolding get_publish_topic
    topic_lem t = (
      rw header_read (
          str_at_lem header topic (tail ++ rest) n (omega (arith, length-append topic tail)) t
            (omega (arith, length-append topic tail))),
      string_there header topic (tail ++ rest),
    )

    abbrev data_at : ℕ
    data_at = length header + 2 + length topic + (if ltb 0 (first / 2 % 4) then 2 else 0)

    data_lem :
        data_at < n
        → data_at ≤ length header + length body
        → get_publish_data buffer n ≡ (some data_at, length header + length body - data_at)
    unfolding get_publish_data
    data_lem a b = ground (
      arith,
      header_read,
      get_u16-string header topic (tail ++ rest) (omega (arith, length-append topic tail)),
    )

-- The bytes of a packet, with anything behind them, give back the total length, topic and data.
abbrev pub ReadsBack : List ℕ → List ℕ → List ℕ → List ℕ → ℕ → Type 0
ReadsBack bytes rest topic content n =
    let buffer = bytes ++ rest in
    (get_total_length buffer n ≡ length bytes)
    × ((i : ℕ) × (get_publish_topic buffer n ≡ some (i, length topic))
        × (take (length topic) (drop i buffer) ≡ topic))
    × ((j : ℕ) × (get_publish_data buffer n ≡ (some j, length content))
        × (take (length content) (drop j buffer) ≡ content))

data_there :
    (pre topic ids content rest : List ℕ) (i : ℕ)
    → i ≡ length pre + 2 + length topic + length ids
    → take (length content) (drop i (pre ++ (string topic ++ ((ids ++ content) ++ rest)))) ≡ content
data_there pre topic ids content rest i e =
    let b = (ids ++ content) ++ rest in
    let m = length topic + length ids in
    rw
      (
        drop_more pre (string topic ++ b) i (2 + m) (omega (arith, e)),
        drop_more (string topic) b (2 + m) (length ids) (omega arith),
        append_assoc ids content rest,
        drop_more ids (content ++ rest) (length ids) 0 (omega arith),
      )
      (take-append content rest)

packet_read :
    (first : ℕ) (topic ids content rest : List ℕ) (n : ℕ)
    → let payload = string topic ++ (ids ++ content) in
      let bytes = first ∷ (remaining (length payload) ++ payload) in
      length ids ≡ (if ltb 0 (first / 2 % 4) then 2 else 0)
      → 0 < length topic
      → length payload < 16384
      → length bytes ≤ n
      → length bytes - length content < n
      → ReadsBack bytes rest topic content n
packet_read first topic ids content rest n e pos h l d =
    let tail = ids ++ content in
    let payload = string topic ++ tail in
    let size = length-append (remaining (length payload)) payload in
    let size' = length-append topic tail in
    let size'' = length-append ids content in
    let l' : length (header first topic tail rest) + length payload ≤ n = omega (arith, size) in
    let j = data_at first topic tail rest n h l' in
    let t = topic_lem first topic tail rest n h l' (omega (arith, size, size', size'')) in
    rw (buffer_lem first topic tail rest) (
      total_lem first topic tail rest n h l' ∙ omega (arith, size),
      (_, t.0, t.1),
      (
        j,
        data_lem first topic tail rest n h l' (omega (arith, e, size, size', size''))
              (omega (arith, e, size, size', size''))
            ∙ ap (λ k. (some j, k)) (omega (arith, e, size, size', size'')),
        data_there (header first topic tail rest) topic ids content rest j (omega (arith, e)),
      ),
    )

-- A PUBLISH that fits is read back from its bytes, whatever follows them: its length, its topic and
-- its data. Data is found only where it begins below the length `n` that the reader is given.
pub publish_read :
    {c : Connection} (x : ℕ) (s content rest : List ℕ) (qos retain n : ℕ)
    → IsReady c
    → qos < 4
    → 3 + length (publish_body c.message_id (x ∷ s) content qos) ≤ c.buffer_length
    → length (message_bytes (msg_publish c (some (x ∷ s)) content qos retain).1) ≤ n
    → length (message_bytes (msg_publish c (some (x ∷ s)) content qos retain).1) - length content
      < n
    → ReadsBack
        (message_bytes (msg_publish c (some (x ∷ s)) content qos retain).1)
        rest
        (x ∷ s)
        content
        n
publish_read {c} x s content rest qos retain n r q f t d =
    let first = first_byte 3 0 qos retain in
    let ids = if ltb 0 qos then u16_bytes (next_id c.message_id) else [] in
    let b = msg_publish_lem x s content qos retain r in
    let fits : leb (3 + length (publish_body c.message_id (x ∷ s) content qos)) c.buffer_length
        ≡ true =
      ground arith in
    let b' : message_bytes (msg_publish c (some (x ∷ s)) content qos retain).1
        ≡ packet MessageType.publish 0 qos retain (publish_body c.message_id (x ∷ s) content qos) =
      ground (arith, b) in
    rw b' (
      packet_read first (x ∷ s) ids content rest n (ground arith) (omega arith)
        (omega (arith, r.short)) (rw b' at t) (rw b' at d))
