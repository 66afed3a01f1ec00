-- ===== src/Msg/Read.antt =====
-- src/mqtt_msg.c and src/mqtt/mqtt_msg.h: the `mqtt_get_…` functions. A returned pointer is an
-- offset in `buffer`, with the length that is written to `*length`. An `int` is
-- its 32 bits: the shifts go up by seven bits with each length byte that has its top bit set, and
-- bits that a shift moves out are lost (a shift by 32 bits or more, which C leaves undefined, loses
-- them all).
use u_mqttbroker.Base.{
  ℕ, zero, suc, ◌+◌, ◌-◌, ◌*◌, ◌/◌, ◌%◌, ◌^◌, Bool, true, false, Option, none, some, List,
  if◌then◌else◌, ltb, leb, ◌==◌, ◌||◌, ◌&&◌, get_or,
}

unfoldable pub get_type : List ℕ → ℕ
get_type buffer = get_or buffer 0 0 / 16 % 16

unfoldable pub get_connect_return_code : List ℕ → ℕ
get_connect_return_code buffer = get_or buffer 3 0

unfoldable pub get_dup : List ℕ → ℕ
get_dup buffer = get_or buffer 0 0 / 8 % 2

unfoldable pub get_qos : List ℕ → ℕ
get_qos buffer = get_or buffer 0 0 / 2 % 4

unfoldable pub get_retain : List ℕ → ℕ
get_retain buffer = get_or buffer 0 0 % 2

-- The loop over the bytes of the remaining length: the rounds left, `i`, `1 << (7 * (i - 1))`,
-- `totlen`. The result is `i` and `totlen` behind the loop.
unfoldable pub length_loop : List ℕ → ℕ → ℕ → ℕ → ℕ → ℕ × ℕ
length_loop buffer zero i unit totlen = (i, totlen)
length_loop buffer (suc n) i unit totlen =
    let b = get_or buffer i 0 in
    let totlen' = (totlen + b % 128 * unit) % 2 ^ 32 in
    elim (ltb b 128) [
      | true ↦ (i + 1, totlen')
      | false ↦ length_loop buffer n (i + 1) (unit * 128 % 2 ^ 32) totlen'
    ]

-- `for (i = 1; i < length; ++i)`
abbrev pub read_length : List ℕ → ℕ → ℕ × ℕ
read_length buffer length = length_loop buffer (length - 1) 1 1 0

unfoldable pub get_total_length : List ℕ → ℕ → ℕ
unfolding length_loop
get_total_length buffer length =
    let (i, totlen) = read_length buffer length in (totlen + i) % 2 ^ 32

-- The big-endian number at an offset.
abbrev pub get_u16 : List ℕ → ℕ → ℕ
get_u16 buffer i = get_or buffer i 0 * 256 + get_or buffer (i + 1) 0

-- A string from the offset `i` on, below `length`.
abbrev pub str_at : List ℕ → ℕ → ℕ → Option (ℕ × ℕ)
str_at buffer length i =
    let topiclen = get_u16 buffer i in
    if leb length (i + 2)
    then none
    else if ltb length (i + 2 + topiclen)
    then none
    else some (i + 2, topiclen)

unfoldable pub get_str : List ℕ → ℕ → Option (ℕ × ℕ)
get_str buffer length = str_at buffer length 0

unfoldable pub get_publish_topic : List ℕ → ℕ → Option (ℕ × ℕ)
unfolding length_loop
get_publish_topic buffer length =
    let (i, totlen) = read_length buffer length in str_at buffer length i

-- The second number is `*length` behind the call, which is 0 beside NULL. A `totlen` with the sign
-- bit set is negative, and so below `i`.
unfoldable pub get_publish_data : List ℕ → ℕ → Option ℕ × ℕ
unfolding length_loop get_qos
get_publish_data buffer blength =
    let (i, t) = read_length buffer blength in
    let totlen = (t + i) % 2 ^ 32 in
    let topiclen = get_u16 buffer i in
    let j = i + 2 + topiclen in
    let k = if ltb 0 (get_qos buffer) then j + 2 else j in
    if leb blength (i + 2)
    then (none, 0)
    else if leb blength j
    then (none, 0)
    else if leb blength k && ltb 0 (get_qos buffer)
    then (none, 0)
    else if leb (2 ^ 31) totlen || ltb totlen k
    then (none, 0)
    else (some k, if leb totlen blength then totlen - k else blength - k)

-- The types whose id follows the fixed header.
abbrev pub has_plain_id : ℕ → Bool
has_plain_id t =
    (t == 4)
    || ((t == 5)
        || ((t == 6) || ((t == 7) || ((t == 9) || ((t == 11) || ((t == 8) || (t == 10)))))))

unfoldable pub get_id : List ℕ → ℕ → ℕ
unfolding length_loop get_type get_qos
get_id buffer length =
    let (i, totlen) = read_length buffer length in
    let topiclen = get_u16 buffer i in
    let j = i + 2 + topiclen in
    if ltb length 1
    then 0
    else if get_type buffer == 3
    then (if leb length (i + 2)
        then 0
        else if leb length j
        then 0
        else if ltb 0 (get_qos buffer)
        then (if leb length (j + 2) then 0 else get_u16 buffer j)
        else 0)
    else if has_plain_id (get_type buffer)
    then (if leb 4 length then (if ltb (get_or buffer 1 0) 128 then get_u16 buffer 2 else 0) else 0)
    else 0
