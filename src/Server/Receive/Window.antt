-- ===== src/Server/Receive/Window.antt =====
-- src/mqtt_server.cpp, MQTT_ClientCon_recv_cb: the bytes that the buffer of a client holds, and what
-- is left of them behind a message.
use u_mqttbroker.Base.{
  ℕ, zero, suc, ◌+◌, ◌-◌, ◌%◌, ◌^◌, ◌≤◌, ◌<◌, ◌≡◌, inl, inr, refl, sym, ap, subst, ◌∙◌, List, [],
  ◌∷◌, arith, ◌==◌, ltb, length, take, drop, take-write, length-take, length-drop, set, get_or,
  get_or-take, Bool-cases,
}
use u_mqttbroker.Msg.Read.{get_total_length, length_loop}
use u_mqttbroker.Server.{Inbound}
use u_mqttbroker.Server.Receive.{shift}
use u_mqttbroker.Server.Receive.Connect.{adapt}
use u_mqttbroker.Server.Receive.Sound.{IsBounded, Rewrites}
use u_mqttbroker.Server.Receive.Bounds.{Rewrites-IsBounded}

module _ {ℓ} {A : Type ℓ} where
  drop-take : (n m k : ℕ) (xs : List A) → n ≡ m + k → drop m (take n xs) ≡ take k (drop m xs)
  drop-take n zero k xs e = let e' : n ≡ k = omega (arith, e) in rw e' refl
  drop-take zero (suc m) k xs e = absurd (omega arith)
  drop-take (suc n) (suc m) zero [] e = refl
  drop-take (suc n) (suc m) (suc k) [] e = refl
  drop-take (suc n) (suc m) k (x ∷ xs) e = drop-take n m k xs (omega (arith, e))

  drop-set : (n i : ℕ) (v : A) (xs : List A) → i < n → drop n (set xs i v) ≡ drop n xs
  drop-set zero i v xs h = absurd (omega arith)
  drop-set (suc n) i v [] h = refl
  drop-set (suc n) zero v (x ∷ xs) h = refl
  drop-set (suc n) (suc i) v (x ∷ xs) h = drop-set n i v xs (omega arith)

length_loop-take :
    (buffer : List ℕ) (n rounds i unit totlen : ℕ)
    → i + rounds ≤ n
    → length_loop (take n buffer) rounds i unit totlen ≡ length_loop buffer rounds i unit totlen
unfolding length_loop
length_loop-take buffer n zero i unit totlen h = refl
length_loop-take buffer n (suc r) i unit totlen h =
    let same = get_or-take buffer n i 0 (omega arith) in
    elim (Bool-cases (ltb (get_or buffer i 0) 128)) [
      | inl e ↦ rw (length_loop, same, e) (rw same refl)
      | inr e ↦
          rw (length_loop, same, e)
            (rw same (length_loop-take buffer n r (i + 1) _ _ (omega arith)))
    ]

-- The bytes in the buffer that were received.
abbrev pub received : Inbound → List ℕ
received inb = take inb.message_length_read inb.in_buffer

-- The total length of the message that some bytes begin with, as it is stored in 16 bits.
abbrev pub total_of : List ℕ → ℕ
total_of bytes = get_total_length bytes (length bytes) % 2 ^ 16

pub total_of-received :
    (inb : Inbound)
    → IsBounded inb
    → total_of (received inb) ≡ get_total_length inb.in_buffer inb.message_length_read % 2 ^ 16
unfolding get_total_length
total_of-received inb (l, r) =
    let n = inb.message_length_read in
    let len : length (received inb) ≡ n = omega (arith, length-take n inb.in_buffer, l, r) in
    elim (Bool-cases (n == 0)) [
      | inl z ↦ let z' : n ≡ 0 = ground (arith, z) in rw (len, z') refl
      | inr z ↦
          let same : length_loop (received inb) (n - 1) 1 1 0
              ≡ length_loop inb.in_buffer (n - 1) 1 1 0 =
            length_loop-take inb.in_buffer n (n - 1) 1 1 0 (ground (arith, z)) in
          rw (len, same) refl
    ]

drop-adapt : (m : ℕ) (buffer : List ℕ) → 13 ≤ m → drop m (adapt buffer) ≡ drop m buffer
drop-adapt m buffer h =
    drop-set m 11 _ _ (omega (arith, h))
    ∙ drop-set m 10 _ _ (omega (arith, h))
    ∙ drop-set m 9 _ _ (omega (arith, h))
    ∙ drop-set m 8 _ buffer (omega (arith, h))

received-shift :
    (inb : Inbound)
    → IsBounded inb
    → inb.message_length < inb.message_length_read
    → received (shift inb) ≡ drop inb.message_length (received inb)
unfolding shift
received-shift inb (l, r) h =
    let m = inb.message_length in
    let n = inb.message_length_read in
    let diff = n - m in
    let ys = take diff (drop m inb.in_buffer) in
    let len : length ys ≡ diff =
      omega
        (arith, length-take diff (drop m inb.in_buffer), length-drop m inb.in_buffer, l, r, h) in
    take-write ys inb.in_buffer 0 diff (omega (arith, len)) (omega (arith, l, r))
    ∙ sym (drop-take n m diff inb.in_buffer (omega (arith, h)))

shift-read :
    (inb : Inbound) → (shift inb).message_length_read ≡ inb.message_length_read - inb.message_length
unfolding shift
shift-read inb = refl

pub shift-less :
    (r n : ℕ) (inb : Inbound)
    → 0 < inb.message_length
    → inb.message_length < inb.message_length_read
    → inb.message_length_read ≡ r
    → r < suc n
    → (shift inb).message_length_read < n
shift-less r n inb a b e l = omega (arith, shift-read inb)

pub received-Rewrites :
    (inb inb' : Inbound)
    → Rewrites inb inb'
    → IsBounded inb
    → inb'.message_length < inb'.message_length_read
    → (received (shift inb') ≡ drop inb.message_length (received inb)) × IsBounded inb'
received-Rewrites inb inb' (inl e) p h =
    subst
      (λ x.
        x.message_length < x.message_length_read
        → (received (shift x) ≡ drop inb.message_length (received inb)) × IsBounded x)
      (sym e) (λ h. (received-shift inb p h, p)) h
received-Rewrites inb inb' (inr (l, e)) p h =
    let m = inb.message_length in
    let n = inb.message_length_read in
    let inb₂ = record inb { in_buffer = adapt inb.in_buffer } in
    let p₂ : IsBounded inb₂ = Rewrites-IsBounded inb inb₂ (inr (l, refl)) p in
    subst
      (λ x.
        x.message_length < x.message_length_read
        → (received (shift x) ≡ drop inb.message_length (received inb)) × IsBounded x)
      (sym e)
      (λ h. (
        received-shift inb₂ p₂ h
            ∙ drop-take n m (n - m) (adapt inb.in_buffer) (omega (arith, h))
            ∙ ap (take (n - m)) (drop-adapt m inb.in_buffer l)
            ∙ sym (drop-take n m (n - m) inb.in_buffer (omega (arith, h))),
        p₂,
      ))
      h

pub Rewrites-lengths :
    (inb inb' : Inbound)
    → Rewrites inb inb'
    → (inb'.message_length ≡ inb.message_length)
      × (inb'.message_length_read ≡ inb.message_length_read)
Rewrites-lengths inb inb' (inl e) =
    (ap (λ x. x.message_length) e, ap (λ x. x.message_length_read) e)
Rewrites-lengths inb inb' (inr (l, e)) =
    (ap (λ x. x.message_length) e, ap (λ x. x.message_length_read) e)
