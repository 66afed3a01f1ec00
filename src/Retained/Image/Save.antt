-- ===== src/Retained/Image/Save.antt =====
-- What `serialize_retainedtopics` writes: the entries that have a topic, one behind the other.
use u_mqttbroker.Base.{
  ℕ, ◌+◌, ◌^◌, ◌<◌, ◌≤◌, ◌≡◌, ◌⊎◌, inl, inr, refl, sym, subst, ◌∙◌, ap, Bool, false, some, List, [],
  ◌∷◌, ◌++◌, arith, if◌then◌else◌, ◌==◌, set, get_or, length, length-set, length-append, take,
  append_assoc, append-nil, Option-cases, get_or-set_self,
}
use u_mqttbroker.Retained.{Slot}
use u_mqttbroker.Retained.Image.{str_of, put_entry, is_over, serialize_loop, serialize}
use u_mqttbroker.Retained.Image.Layout.{
  entry_image, image, AllSized, Holds, length-entry_image, put_entry_lem,
}

-- Nothing is written yet, or a 0 stands behind what is written.
abbrev pub Ended : ℕ → List ℕ → Type 0
Ended pos buf = (pos ≡ 0) ⊎ (get_or buf pos 1 ≡ 0)

abbrev pub Saved : List ℕ → List ℕ → ℕ × List ℕ → Type 0
Saved done buf r = Holds done r.0 r.1 × (length r.1 ≡ length buf) × Ended r.0 r.1

is_over-false :
    (len n pos : ℕ) (t : List ℕ)
    → len ≤ 2 ^ 16
    → pos + length t + n + 6 < len
    → is_over len t n pos ≡ false
is_over-false len n pos t w h = ground arith

serialize_loop-some :
    (len : ℕ) (s : Slot) (slots : List Slot) (t : List ℕ) (pos : ℕ) (buf : List ℕ) (n : ℕ)
    → s.topic ≡ some t
    → s.data_len ≡ n
    → is_over len t n pos ≡ false
    → let r = put_entry t (str_of s.content) n s.qos pos buf in
      serialize_loop len (s ∷ slots) pos buf ≡ serialize_loop len slots r.0 r.1
serialize_loop-some len s slots t pos buf n e k o = rw (e, k, o) refl

pub image-some :
    (s : Slot) (slots : List Slot) (t : List ℕ)
    → s.topic ≡ some t
    → image (s ∷ slots) ≡ entry_image t (str_of s.content) s.qos ++ image slots
image-some s slots t e = rw e refl

serialize_loop_lem :
    (len : ℕ) (slots : List Slot) (done : List ℕ) (pos : ℕ) (buf : List ℕ)
    → AllSized slots
    → len ≤ 2 ^ 16
    → length buf ≡ len
    → Holds done pos buf
    → Ended pos buf
    → pos + length (image slots) + 2 < len
    → (r : ℕ × List ℕ) × (serialize_loop len slots pos buf ≡ some r)
      × Saved (done ++ image slots) buf r
serialize_loop_lem len [] done pos buf a w l h z f = ((pos, buf), refl, (rw append-nil h, refl, z))
serialize_loop_lem len (s ∷ slots) done pos buf a w l h z f = elim (Option-cases s.topic) [
  | inl e ↦ rw e (serialize_loop_lem len slots done pos buf a.1 w l h z (rw e at f))
  | inr (t, e) ↦
      let d = str_of s.content in
      let en = entry_image t d s.qos in
      let n = length-entry_image t d s.qos in
      let k = length-append en (image slots) in
      let f' : pos + length (en ++ image slots) + 2 < len =
        subst (λ x. pos + length x + 2 < len) (image-some s slots t e) f in
      let r₁ = put_entry t d (length d) s.qos pos buf in
      let w₁ = put_entry_lem t d done s.qos pos buf (omega arith) h (omega (arith, k)) in
      let (r, q, saved) =
        serialize_loop_lem len slots (done ++ en) r₁.0 r₁.1 a.1 w (w₁.2 ∙ l)
          (subst (λ x. Holds (done ++ en) x r₁.1) (sym w₁.1) w₁.0)
          (inr (subst (λ x. get_or r₁.1 x 1 ≡ 0) (sym w₁.1) w₁.3)) (omega (arith, k, w₁.1)) in
      (
        r,
        serialize_loop-some len s slots t pos buf (length d) e a.0
              (is_over-false len (length d) pos t w (omega (arith, k, n)))
            ∙ q,
        subst (λ x. Saved x buf r)
            (append_assoc done en (image slots)
              ∙ ap (λ x. done ++ x) (sym (image-some s slots t e)))
            (saved.0, saved.1 ∙ w₁.2, saved.2),
      )
]

serialize-loop :
    (cb : Bool) (slots : List Slot) (buf : List ℕ) (len : ℕ) (r : ℕ × List ℕ)
    → serialize_loop len slots 0 buf ≡ some r
    → serialize (record { retained_list = some slots; retained_cb = cb }) buf len
      ≡ (if r.0 == 0 then (1, set r.1 0 0) else r)
unfolding serialize
serialize-loop cb slots buf len r e = rw (serialize, e) refl

-- The result, and the buffer with the bytes `done` and a 0 behind them.
abbrev pub IsSaved : List ℕ → List ℕ → ℕ × List ℕ → Type 0
IsSaved done buf r =
    (r.0 ≡ (if length done == 0 then 1 else length done))
    × (take (length done) r.1 ≡ done)
    × (get_or r.1 (length done) 1 ≡ 0)
    × (length r.1 ≡ length buf)

-- The lines behind the loop.
finished :
    (done buf : List ℕ) (r : ℕ × List ℕ)
    → Holds done r.0 r.1
    → length r.1 ≡ length buf
    → Ended r.0 r.1
    → 0 < length buf
    → IsSaved done buf (if r.0 == 0 then (1, set r.1 0 0) else r)
finished [] buf (n, b) h l z k =
    rw h.0 (refl, refl, get_or-set_self b 0 0 1 (omega arith), length-set b 0 0 ∙ l)
finished (c ∷ done) buf (n, b) h l (inl z) k = absurd (omega (arith, h.0))
finished (c ∷ done) buf (n, b) h l (inr z) k =
    let nz : (n == 0) ≡ false = ground (arith, h.0) in
    let nz' : (length (c ∷ done) == 0) ≡ false = ground arith in
    rw (nz, nz') (h.0, (rw h.0 at h.1), (rw h.0 at z), l)

-- With room for the image and three bytes more in a buffer of at most 2 ^ 16 bytes,
-- `serialize_retainedtopics` writes the image and a 0 behind it; it returns the image's length, and
-- 1 where there is no entry.
pub serialize_lem :
    (cb : Bool) (slots : List Slot) (buf : List ℕ)
    → AllSized slots
    → length buf ≤ 2 ^ 16
    → length (image slots) + 2 < length buf
    → (r : ℕ × List ℕ) × (serialize
          (record { retained_list = some slots; retained_cb = cb })
          buf
          (length buf)
        ≡ r)
      × IsSaved (image slots) buf r
serialize_lem cb slots buf a w f =
    let (r, q, (h, l, z)) =
      serialize_loop_lem (length buf) slots [] 0 buf a w refl (refl, refl, omega arith) (inl refl)
        (omega arith) in
    (
      if r.0 == 0 then (1, set r.1 0 0) else r,
      serialize-loop cb slots buf (length buf) r q,
      finished (image slots) buf r h l z (omega arith),
    )
