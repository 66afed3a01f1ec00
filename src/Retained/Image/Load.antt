-- ===== src/Retained/Image/Load.antt =====
-- What `deserialize_retainedtopics` does with an image: one update after the other.
use u_mqttbroker.Base.{
  ℕ, zero, suc, ◌+◌, ◌^◌, ◌<◌, ◌≤◌, ◌≡◌, inl, inr, refl, sym, subst, ◌∙◌, ap, Bool, true, false,
  not, ◌&&◌, none, some, List, [], ◌∷◌, ◌++◌, arith, if◌then◌else◌, ltb, leb, ◌==◌, get_or, length,
  length-append, take, get_or-append, append_assoc, append-nil, length-take,
}
use u_mqttbroker.Proto.{u16}
use u_mqttbroker.Retained.{Slot, Store, Memory, Calls, update}
use u_mqttbroker.Retained.Image.{str_of, after, deserialize_loop, deserialize, serialize}
use u_mqttbroker.Retained.Image.Layout.{entry_image, AllSized, image, length-entry_image}
use u_mqttbroker.Retained.Image.Save.{image-some, IsSaved, serialize_lem}
use u_mqttbroker.Retained.Image.Entry.{NoZero, AllStorable, replay, Reads, entry-Reads}

-- One round of the loop where an entry stands.
deserialize_loop-Reads :
    (memory : ℕ → Memory) (fuel pos : ℕ) (t d buf : List ℕ) (q : ℕ) (st : Store)
    → Reads t d q buf pos
    → pos + length t + length d + 4 ≤ length buf
    → length buf < 2 ^ 16
    → (get_or buf pos 0 == 0) ≡ false
    → let r = update (memory pos) st t d q in
      deserialize_loop true memory (suc fuel) pos buf st ≡ (
        if not r.0
        then some (false, r.1, r.2)
        else after r.2 (deserialize_loop true memory fuel (pos + length t + length d + 4) buf r.1))
deserialize_loop-Reads memory fuel pos t d buf q st (r₀, r₁, r₂, r₃) l w z =
    let u₁ : u16 (pos + length t + 1) ≡ pos + length t + 1 = omega arith in
    let u₂ : u16 (pos + length t + 1 + 1) ≡ pos + length t + 2 = omega arith in
    let u₃ : u16 (pos + length t + 1 + 2) ≡ pos + length t + 3 = omega arith in
    let u₄ : u16 (pos + length t + 3 + length d) ≡ pos + length t + 3 + length d = omega arith in
    let u₅ : u16 (pos + length t + 3 + length d + 1) ≡ pos + length t + length d + 4 =
      omega arith in
    let a₁ : ltb pos (length buf) ≡ true = ground arith in
    let a₂ : leb (length buf) (pos + length t + 1) ≡ false = ground arith in
    let a₃ : leb (length buf) (pos + length t + 3 + length d) ≡ false = ground arith in
    rw (deserialize_loop, r₀, u₁, u₂, r₁, u₃, r₂, u₄, r₃, u₅, a₁, z, a₂, a₃) refl

-- The end of the image.
deserialize_loop-end :
    (memory : ℕ → Memory) (fuel pos : ℕ) (buf : List ℕ) (st : Store)
    → get_or buf pos 0 ≡ 0
    → deserialize_loop true memory (suc fuel) pos buf st ≡ some (true, st, [])
deserialize_loop-end memory fuel pos buf st z =
    let z' : (get_or buf pos 0 == 0) ≡ true = ground arith in
    let stop : not (ltb pos (length buf) && not (get_or buf pos 0 == 0)) ≡ true =
      ground (arith, z) in
    rw (deserialize_loop, stop) refl

image-none : (s : Slot) (slots : List Slot) → s.topic ≡ none → image (s ∷ slots) ≡ image slots
image-none s slots e = rw e refl

replay-none :
    (memory : ℕ → Memory) (pos : ℕ) (s : Slot) (slots : List Slot) (st : Store)
    → s.topic ≡ none
    → replay memory pos (s ∷ slots) st ≡ replay memory pos slots st
replay-none memory pos s slots st e = rw e refl

replay-some :
    (memory : ℕ → Memory) (done : List ℕ) (s : Slot) (slots : List Slot) (st : Store) (t : List ℕ)
    → s.topic ≡ some t
    → let d = str_of s.content in
      let r = update (memory (length done)) st t d s.qos in
      let q = replay memory (length (done ++ entry_image t d s.qos)) slots r.1 in
      replay memory (length done) (s ∷ slots) st
      ≡ (if not r.0 then (false, r.1, r.2) else (q.0, q.1, r.2 ++ q.2))
replay-some memory done s slots st t e =
    rw (length-append done (entry_image t (str_of s.content) s.qos), e) refl

if-after :
    (b : Bool) (x : Bool × Store × Calls) (calls : Calls) (y : Bool × Store × Calls)
    → (if b then some x else after calls (some y))
      ≡ some (if b then x else (y.0, y.1, calls ++ y.2))
if-after true x calls y = refl
if-after false x calls y = refl

deserialize_loop-entry :
    (memory : ℕ → Memory) (fuel : ℕ) (done t d more : List ℕ) (c q : ℕ) (st : Store)
    → NoZero (c ∷ t)
    → length d < 2 ^ 16
    → let e = entry_image (c ∷ t) d q in
      let buf = done ++ (e ++ more) in
      let r = update (memory (length done)) st (c ∷ t) d q in
      length buf < 2 ^ 16
      → deserialize_loop true memory (suc fuel) (length done) buf st ≡ (
          if not r.0
          then some (false, r.1, r.2)
          else after r.2 (deserialize_loop true memory fuel (length (done ++ e)) buf r.1))
deserialize_loop-entry memory fuel done t d more c q st z h w =
    let e = entry_image (c ∷ t) d q in
    let n = length-entry_image (c ∷ t) d q in
    let n' = length-append done (e ++ more) in
    let k = length-append e more in
    let next : length done + length (c ∷ t) + length d + 4 ≡ length (done ++ e) =
      omega (arith, length-append done e, n) in
    subst
      (λ x. deserialize_loop true memory (suc fuel) (length done) (done ++ (e ++ more)) st ≡ (
        if not (update (memory (length done)) st (c ∷ t) d q).0
        then some (
          false,
          (update (memory (length done)) st (c ∷ t) d q).1,
          (update (memory (length done)) st (c ∷ t) d q).2,
        )
        else after (update (memory (length done)) st (c ∷ t) d q).2 (
            deserialize_loop true memory fuel x (done ++ (e ++ more))
              (update (memory (length done)) st (c ∷ t) d q).1)))
      next
      (deserialize_loop-Reads memory fuel (length done) (c ∷ t) d (done ++ (e ++ more)) q st
        (entry-Reads done (c ∷ t) d more q z h) (omega (arith, n, n', k)) w
        (ground (arith, get_or-append done (e ++ more) (length done) 0 0, z.0)))

deserialize_loop_lem :
    (memory : ℕ → Memory) (slots : List Slot) (fuel : ℕ) (done tail : List ℕ) (st : Store)
    → AllStorable slots
    → length slots < fuel
    → get_or tail 0 0 ≡ 0
    → let buf = done ++ (image slots ++ tail) in
      length buf < 2 ^ 16
      → deserialize_loop true memory fuel (length done) buf st
        ≡ some (replay memory (length done) slots st)
deserialize_loop_lem memory slots zero done tail st a f g w = absurd (omega arith)
deserialize_loop_lem memory [] (suc fuel) done tail st a f g w =
    deserialize_loop-end memory fuel (length done) (done ++ tail) st
      (get_or-append done tail (length done) 0 0 (omega arith) ∙ g)
deserialize_loop_lem memory (s ∷ slots) (suc fuel) done tail st (inl e, b, a) f g w =
    subst
      (λ x.
        deserialize_loop true memory (suc fuel) (length done) (done ++ (x ++ tail)) st
        ≡ some (replay memory (length done) (s ∷ slots) st))
      (sym (image-none s slots e))
      (deserialize_loop_lem memory slots (suc fuel) done tail st a (omega arith) g
          (subst (λ x. length (done ++ (x ++ tail)) < 2 ^ 16) (image-none s slots e) w)
        ∙ ap some (sym (replay-none memory (length done) s slots st e)))
deserialize_loop_lem memory (s ∷ slots) (suc fuel) done tail st (inr (c, t, e, z), b, a) f g w =
    let d = str_of s.content in
    let en = entry_image (c ∷ t) d s.qos in
    let more = image slots ++ tail in
    let buf : done ++ (image (s ∷ slots) ++ tail) ≡ done ++ (en ++ more) =
      ap (λ x. done ++ x)
        (ap (λ x. x ++ tail) (image-some s slots (c ∷ t) e)
          ∙ append_assoc en (image slots) (tail)) in
    let w' : length (done ++ (en ++ more)) < 2 ^ 16 = subst (λ x. length x < 2 ^ 16) buf w in
    let r = update (memory (length done)) st (c ∷ t) d s.qos in
    let rest =
      deserialize_loop_lem memory slots fuel (done ++ en) tail r.1 a (omega arith) g
        (subst (λ x. length x < 2 ^ 16) (sym (append_assoc done en more)) w') in
    ap (λ x. deserialize_loop true memory (suc fuel) (length done) x st) buf
    ∙ deserialize_loop-entry memory fuel done t d more c s.qos st z b w'
    ∙ ap (λ x. if not r.0 then some (false, r.1, r.2) else after r.2 x)
        (ap (λ x. deserialize_loop true memory fuel (length (done ++ en)) x r.1)
            (sym (append_assoc done en more))
          ∙ rest)
    ∙ if-after (not r.0) (false, r.1, r.2) r.2 (replay memory (length (done ++ en)) slots r.1)
    ∙ ap some (sym (replay-some memory done s slots st (c ∷ t) e))

get_or-take_one : (xs : List ℕ) → get_or xs 0 1 ≡ 0 → get_or (take 1 xs) 0 0 ≡ 0
get_or-take_one [] e = refl
get_or-take_one (x ∷ xs) e = e

-- Where the compiler takes the left one of the two reads of a length first: for entries with topics
-- that are not empty and without 0, and data below 2 ^ 16 bytes, whose image leaves three bytes of
-- room in a buffer of at most 2 ^ 16 bytes: the bytes at the start of the buffer that
-- serialize_retainedtopics counts are read back, with one round of fuel more than entries, as the
-- update of each entry in order, up to the first that fails.
pub load_saved :
    (cb : Bool) (memory : ℕ → Memory) (fuel : ℕ) (slots : List Slot) (buf : List ℕ) (st : Store)
    → AllSized slots
    → AllStorable slots
    → length buf ≤ 2 ^ 16
    → length (image slots) + 2 < length buf
    → length slots < fuel
    → let r =
        serialize (record { retained_list = some slots; retained_cb = cb }) buf (length buf) in
      deserialize true memory fuel (take r.0 r.1) st ≡ some (replay memory 0 slots st)
unfolding deserialize
load_saved cb memory fuel slots buf st a b w l f =
    let (r, q, h) = serialize_lem cb slots buf a w l in
    ap (λ x. deserialize_loop true memory fuel 0 (take x.0 x.1) st) q ∙ saved r h (image slots) refl
  where
    saved :
        (r : ℕ × List ℕ)
        → IsSaved (image slots) buf r
        → (i : List ℕ) → image slots ≡ i
        → deserialize_loop true memory fuel 0 (take r.0 r.1) st ≡ some (replay memory 0 slots st)
    saved r h [] e =
        let one : r.0 ≡ 1 = rw e at h.0 in
        let tail = take 1 r.1 in
        let z : get_or r.1 0 1 ≡ 0 = rw e at h.2 in
        let same : take r.0 r.1 ≡ image slots ++ tail = rw (one, e) refl in
        ap (λ x. deserialize_loop true memory fuel 0 x st) same
        ∙ deserialize_loop_lem memory slots fuel [] tail st b f (get_or-take_one r.1 z)
            (subst (λ x. length (x ++ tail) < 2 ^ 16) (sym e) (omega (arith, length-take 1 r.1)))
    saved r h (c ∷ i) e =
        let n : r.0 ≡ length (image slots) = ground (arith, h.0, ap length e) in
        let same : take r.0 r.1 ≡ image slots ++ [] =
          ap (λ k. take k r.1) n ∙ h.1 ∙ sym (append-nil (image slots)) in
        ap (λ x. deserialize_loop true memory fuel 0 x st) same
        ∙ deserialize_loop_lem memory slots fuel [] [] st b f refl
            (omega (arith, length-append (image slots) [], l, w))
