-- ===== src/Msg/Connecting.antt =====
-- What `mqtt_msg_connect` leaves to be sent.
use u_mqttbroker.Base.{
  ℕ, zero, suc, ◌+◌, ◌/◌, ◌%◌, ◌≡◌, inl, inr, refl, ap, subst, sym, ◌∙◌, true, false, Option, none,
  some, List, [], ◌∷◌, ◌++◌, append_assoc, append-nil, arith, if◌then◌else◌, ltb, leb, length,
  length-append, length-set, get_or-take, set, get_or, take, write, Bool-cases,
}
use u_mqttbroker.Msg.{Connection, MessageType, append_string, init_message, fini_message}
use u_mqttbroker.Msg.Build.{ConnectInfo, msg_connect, with_string, or_fail, add_flags, will_flags}
use u_mqttbroker.Msg.Packet.{
  packet, string, message_bytes, IsReady, IsOpen, init_message-IsOpen, write-IsOpen,
  append_string_lem, append_string_full, fail_message_lem, fini_message_lem,
}

-- The variable header of version 4.
abbrev pub header : ℕ → ℕ → List ℕ
header flags keepalive =
    0 ∷ 4 ∷ b'M' ∷ b'Q' ∷ b'T' ∷ b'T' ∷ 4 ∷ flags ∷ (keepalive / 256 % 256) ∷ (keepalive % 256) ∷ []

-- A string that is sent if it is there and not empty, and its flags.
abbrev pub optional : Option (List ℕ) → List ℕ → List ℕ
optional none s = []
optional (some []) s = []
optional (some (x ∷ t)) s = s

abbrev pub optional_flags : Option (List ℕ) → ℕ → ℕ
optional_flags none n = 0
optional_flags (some []) n = 0
optional_flags (some (x ∷ t)) n = n

abbrev pub text : Option (List ℕ) → List ℕ
text none = []
text (some s) = string s

set-take : (n : ℕ) (xs : List ℕ) (i v : ℕ) → set (take n xs) i v ≡ take n (set xs i v)
set-take zero xs i v = refl
set-take (suc n) [] i v = refl
set-take (suc n) (x ∷ xs) zero v = refl
set-take (suc n) (x ∷ xs) (suc i) v = ap (◌∷◌ x) (set-take n xs i v)

module _ (keepalive size : ℕ) where
  add_flags-IsOpen :
      {c : Connection} (flags n : ℕ) (s : List ℕ)
      → IsOpen c (header flags keepalive ++ s)
      → IsOpen (add_flags n c) (header (flags + n) keepalive ++ s)
  add_flags-IsOpen {c} flags n s o =
      let l = c.msg_length in
      let g : get_or c.buffer 10 0 ≡ flags =
        sym (get_or-take c.buffer l 10 0 (omega (arith, o.size)))
        ∙ ap (λ xs. get_or xs 10 0) o.bytes in
      record {
        ready = record {
          header = o.ready.header;
          storage =
              omega (arith, length-set c.buffer 10 (get_or c.buffer 10 0 + n), o.ready.storage);
          short = o.ready.short;
        };
        fits = o.fits;
        size = o.size;
        h₀ = o.h₀;
        h₁ = o.h₁;
        h₂ = o.h₂;
        bytes =
            sym (set-take l c.buffer 10 (get_or c.buffer 10 0 + n))
            ∙ ap (λ xs. set xs 10 (get_or c.buffer 10 0 + n)) o.bytes
            ∙ ap (λ f. o.h₀ ∷ o.h₁ ∷ o.h₂ ∷ (header (f + n) keepalive ++ s)) g;
      }

  -- The packet, if it fits.
  abbrev result : ℕ → List ℕ → List ℕ
  result flags s =
      if leb (13 + length s) size
      then packet MessageType.connect 0 0 0 (header flags keepalive ++ s)
      else []

  -- A continuation of the builder that adds flags and bytes, or fails for want of room.
  abbrev Finishes : (Connection → Connection) → ℕ → List ℕ → Type 0
  Finishes k n rest =
      (c : Connection) (flags : ℕ) (s : List ℕ)
      → IsOpen c (header flags keepalive ++ s)
      → c.buffer_length ≡ size
      → message_bytes (k c) ≡ result (flags + n) (s ++ rest)

  Finishes-flags :
      (k : Connection → Connection) (n n' : ℕ) (rest : List ℕ)
      → n ≡ n'
      → Finishes k n rest
      → Finishes k n' rest
  Finishes-flags k n n' rest e h = subst (λ x. Finishes k x rest) e h

  finish-Finishes : Finishes (λ c. fini_message c MessageType.connect 0 0 0) 0 []
  finish-Finishes c flags s o e =
      let fits : leb (13 + length s) size ≡ true = ground (arith, o.size, o.fits, e) in
      let z : flags + 0 ≡ flags = omega arith in
      rw (append-nil s, fits, z) (fini_message_lem MessageType.connect 0 0 0 o)

  add_flags-Finishes :
      (k : Connection → Connection) (m n : ℕ) (rest : List ℕ)
      → Finishes k n rest
      → Finishes (λ c. k (add_flags m c)) (m + n) rest
  add_flags-Finishes k m n rest h c flags s o e =
      let z : flags + m + n ≡ flags + (m + n) = omega arith in
      subst (λ x. message_bytes (k (add_flags m c)) ≡ result x (s ++ rest)) z
        (h (add_flags m c) (flags + m) s (add_flags-IsOpen flags m s o) e)

  -- A string is appended, and the builder goes on.
  append-Finishes :
      (t rest : List ℕ) (k : Connection → Connection) (n : ℕ)
      → Finishes k n rest
      → Finishes (λ c. or_fail (append_string c t) k) n (string t ++ rest)
  append-Finishes t rest k n h c flags s o e =
      elim (Bool-cases (ltb c.buffer_length (c.msg_length + length t + 2))) [
        | inl full ↦
            let f : append_string c t ≡ (none, c) = append_string_full c t (ground (arith, full)) in
            let no : leb (13 + length (s ++ (string t ++ rest))) size ≡ false =
              ground (
                arith,
                o.size,
                e,
                full,
                length-append s (string t ++ rest),
                length-append t rest,
              ) in
            rw (f, no) (fail_message_lem c)
        | inr room ↦
            let (r, o', b, _) = append_string_lem t o (ground (arith, room)) in
            ap (λ x. message_bytes (or_fail (x, (append_string c t).1) k)) r
            ∙ h (append_string c t).1 flags (s ++ string t) o' (b ∙ e)
            ∙ ap (result (flags + n)) (append_assoc s (string t) rest)
      ]

  with_string-Finishes :
      (o : Option (List ℕ)) (absent present : Connection → Connection) (n m : ℕ)
      (more all rest : List ℕ)
      → text o ++ more ≡ all ++ rest
      → Finishes absent n rest
      → Finishes present (m + n) more
      → Finishes
          (λ c. with_string o c absent present)
          (optional_flags o m + n)
          (optional o all ++ rest)
  with_string-Finishes none absent present n m more all rest e h h' =
      Finishes-flags absent n (0 + n) rest (omega arith) h
  with_string-Finishes (some []) absent present n m more all rest e h h' =
      Finishes-flags absent n (0 + n) rest (omega arith) h
  with_string-Finishes (some (x ∷ t)) absent present n m more all rest e h h' =
      subst (Finishes (λ c. or_fail (append_string c (x ∷ t)) present) (m + n)) e
        (append-Finishes (x ∷ t) more present (m + n) h')

-- The flags and the strings behind the client id, of a CONNECT.
abbrev pub connect_flags : ConnectInfo → ℕ
connect_flags info =
    optional_flags info.will_topic (will_flags info)
    + (optional_flags info.username 128 + (optional_flags info.password 64 + 0))

abbrev pub connect_strings : ConnectInfo → List ℕ
connect_strings info =
    optional info.will_topic (text info.will_topic ++ string info.will_data)
    ++ (optional info.username (text info.username)
        ++ (optional info.password (text info.password) ++ []))

module _ (info : ConnectInfo) where
  abbrev finish : Connection → Connection
  finish c = fini_message c MessageType.connect 0 0 0

  abbrev password : Connection → Connection
  password c = with_string info.password c finish (λ c. finish (add_flags 64 c))

  abbrev username : Connection → Connection
  username c = with_string info.username c password (λ c. password (add_flags 128 c))

  abbrev will : Connection → Connection
  will c =
      with_string info.will_topic c username
        λ c. or_fail (append_string c info.will_data) λ c. username (add_flags (will_flags info) c)

module _ (info : ConnectInfo) (size : ℕ) where
  password-Finishes :
      Finishes info.keepalive size
        (password info)
        (optional_flags info.password 64 + 0)
        (optional info.password (text info.password) ++ [])
  password-Finishes =
      let k = info.keepalive in
      let f = finish-Finishes k size in
      with_string-Finishes k size info.password (finish info) (λ c. finish info (add_flags 64 c)) 0
        64 [] (text info.password) [] refl f (add_flags-Finishes k size (finish info) 64 0 [] f)

  username-Finishes :
      Finishes info.keepalive size
        (username info)
        (optional_flags info.username 128 + (optional_flags info.password 64 + 0))
        (optional info.username (text info.username)
          ++ (optional info.password (text info.password) ++ []))
  username-Finishes =
      let k = info.keepalive in
      let n = optional_flags info.password 64 + 0 in
      let rest = optional info.password (text info.password) ++ [] in
      with_string-Finishes k size info.username (password info)
        (λ c. password info (add_flags 128 c)) n 128 rest (text info.username) rest refl
        password-Finishes (add_flags-Finishes k size (password info) 128 n rest password-Finishes)

  will-Finishes :
      Finishes info.keepalive size (will info) (connect_flags info) (connect_strings info)
  will-Finishes =
      let k = info.keepalive in
      let w = will_flags info in
      let n = optional_flags info.username 128 + (optional_flags info.password 64 + 0) in
      let rest =
        optional info.username (text info.username)
        ++ (optional info.password (text info.password) ++ []) in
      with_string-Finishes k size info.will_topic (username info)
        (λ c. or_fail (append_string c info.will_data) λ c. username info (add_flags w c)) n w
        (string info.will_data ++ rest) (text info.will_topic ++ string info.will_data) rest
        (sym (append_assoc (text info.will_topic) (string info.will_data) rest)) username-Finishes
        (append-Finishes k size info.will_data rest (λ c. username info (add_flags w c)) (w + n)
          (add_flags-Finishes k size (username info) w n rest username-Finishes))

-- In a buffer of the announced size, `mqtt_msg_connect` with a client id that is not empty leaves
-- the CONNECT packet of version 4, with the keepalive, the id, those of last will, username and
-- password that are given and not empty, and the flags that tell which, if it fits with three bytes
-- for the header; otherwise nothing.
pub msg_connect_lem :
    {c : Connection} (x : ℕ) (s : List ℕ) (info : ConnectInfo)
    → IsReady c
    → info.client_id ≡ some (x ∷ s)
    → let body = string (x ∷ s) ++ connect_strings info in
      let flags = (if info.clean_session then 2 else 0) + connect_flags info in
      message_bytes (msg_connect c info) ≡ (
        if leb (13 + length body) c.buffer_length
        then packet MessageType.connect 0 0 0 (header flags info.keepalive ++ body)
        else [])
unfolding msg_connect init_message
msg_connect_lem {c} x s info r e = elim (Bool-cases (ltb c.buffer_length 13)) [
  | inl full ↦
      let no : leb (13 + length (string (x ∷ s) ++ connect_strings info)) c.buffer_length ≡ false =
        ground (arith, full) in
      rw (full, no) (fail_message_lem (init_message c))
  | inr room ↦
      let flags : ℕ = if info.clean_session then 2 else 0 in
      let bytes : List ℕ = header flags info.keepalive in
      let o = write-IsOpen bytes 13 (init_message-IsOpen r) refl (ground (arith, room)) in
      rw (room, e)
        (append-Finishes info.keepalive c.buffer_length (x ∷ s) (connect_strings info) (will info)
          (connect_flags info) (will-Finishes info c.buffer_length)
          (record c { buffer = write c.buffer 3 bytes; msg_length = 13 }) flags [] o refl)
]
