-- ===== src/Topics/Slashes.antt =====
-- Empty levels are skipped, so a topic with two slashes in a row matches a subscription with one.
use u_mqttbroker.Base.{
  ℕ, ◌≡◌, inl, inr, refl, ap, ◌∙◌, true, false, List, [], ◌∷◌, ◌++◌, arith, ◌==◌, Bool-cases,
  length-append,
}
use u_mqttbroker.Topics.{separator, matches, has_wildcards, is_valid_name, first_char}
use u_mqttbroker.Topics.Names.{is_valid_name_iff, has_wildcards_iff}
use u_mqttbroker.Topics.Tokens.{levels, parts, not_empty, onto_first, Matches, done, level}
use u_mqttbroker.Topics.Matching.{matches_iff}

onto_first_cons :
    (c : ℕ) (ps : List (List ℕ))
    → (p : List ℕ) × (ps' : List (List ℕ)) × (onto_first c ps ≡ p ∷ ps')
onto_first_cons c [] = (c ∷ [], [], refl)
onto_first_cons c (p ∷ ps) = (c ∷ p, ps, refl)

parts_cons : (s : List ℕ) → (p : List ℕ) × (ps : List (List ℕ)) × (parts s ≡ p ∷ ps)
parts_cons [] = ([], [], refl)
parts_cons (x ∷ s) = elim (Bool-cases (x == separator)) [
  | inl e ↦ ([], parts s, rw e refl)
  | inr e ↦ let (p, ps, f) = onto_first_cons x (parts s) in (p, ps, rw e f)
]

onto_first-append :
    (c : ℕ) (s : List ℕ) (qs : List (List ℕ))
    → onto_first c (parts s ++ qs) ≡ onto_first c (parts s) ++ qs
onto_first-append c s qs = let (p, ps, e) = parts_cons s in rw e refl

parts-append : (s t : List ℕ) → parts (s ++ b'/' ∷ t) ≡ parts s ++ parts t
parts-append [] t = refl
parts-append (c ∷ s) t = elim (Bool-cases (c == separator)) [
  | inl e ↦ rw e (ap (◌∷◌ []) (parts-append s t))
  | inr e ↦ rw (e, parts-append s t) (onto_first-append c s (parts t))
]

not_empty-append : (ps qs : List (List ℕ)) → not_empty (ps ++ qs) ≡ not_empty ps ++ not_empty qs
not_empty-append [] qs = refl
not_empty-append ([] ∷ ps) qs = not_empty-append ps qs
not_empty-append ((c ∷ p) ∷ ps) qs = ap (◌∷◌ (c ∷ p)) (not_empty-append ps qs)

levels_double_slash : (s t : List ℕ) → levels (s ++ b'/' ∷ b'/' ∷ t) ≡ levels (s ++ b'/' ∷ t)
unfolding levels
levels_double_slash s t =
    rw
      (
        parts-append s (b'/' ∷ t),
        parts-append s t,
        not_empty-append (parts s) ([] ∷ parts t),
        not_empty-append (parts s) (parts t),
      )
      refl

Matches-refl : (ts : List (List ℕ)) → Matches ts ts
Matches-refl [] = done
Matches-refl (t ∷ ts) = level t t ts ts (inr refl) (Matches-refl ts)

plain-valid : (s : List ℕ) → has_wildcards s ≡ false → is_valid_name s ≡ true
plain-valid s h =
    let f = (has_wildcards_iff s).0 h in
    (is_valid_name_iff s).1 (
      λ i l q. absurd ((f i l).1 q),
      λ i l q. absurd (elim q [ inl a ↦ (f i l).1 a | inr a ↦ (f i l).0 a ]),
    )

start_same : (s t : List ℕ) → first_char (s ++ b'/' ∷ b'/' ∷ t) ≡ first_char (s ++ b'/' ∷ t)
start_same [] t = refl
start_same (c ∷ s) t = refl

-- Without wildcards, a topic with a doubled slash matches the subscription with a single one: the
-- empty level between the slashes does not count.
pub matches_double_slash :
    (s t : List ℕ)
    → has_wildcards (s ++ b'/' ∷ t) ≡ false
    → has_wildcards (s ++ b'/' ∷ b'/' ∷ t) ≡ false
    → matches (s ++ b'/' ∷ t) true (s ++ b'/' ∷ b'/' ∷ t) ≡ true
matches_double_slash s t h h' =
    let wild = s ++ b'/' ∷ t in
    let topic = s ++ b'/' ∷ b'/' ∷ t in
    let plain = (has_wildcards_iff wild).0 h 0 (omega (arith, length-append s (b'/' ∷ t))) in
    let e : (first_char wild == b'#') ≡ false = ground arith in
    (matches_iff wild topic).1 (
      h',
      plain-valid wild h,
      plain-valid topic h',
      inr (
        λ q. absurd (plain.1 (rw q refl)),
        (λ q. start_same s t ∙ q, λ q. absurd (plain.0 q)),
        rw (e, levels_double_slash s t) (Matches-refl (levels wild)),
      ),
    )
