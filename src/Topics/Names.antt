-- ===== src/Topics/Names.antt =====
-- Which names `Topics_isValidName` accepts, and which topics have wildcards.
use native.Mathlib.Decide.{dec_lt}
use u_mqttbroker.Base.{
  ℕ, zero, suc, ◌+◌, ◌-◌, ◌≤◌, ◌<◌, ◌≡◌, ◌≢◌, ◌↔◌, ◌⊎◌, inl, inr, refl, sym, ap, subst,
  Option-cases, ◌∙◌, Bool, true, false, Option, none, some, List, [], ◌∷◌, arith, if◌then◌else◌,
  ◌==◌, get_or, length, drop, length-drop, Bool-cases,
}
use u_mqttbroker.Topics.{
  find_char, strchr, next_to_slash, wildcard_loop, check_wildcard, check_hash, is_valid_name,
  has_wildcards,
}

abbrev pub char : List ℕ → ℕ → ℕ
char s i = get_or s i 0

get_or-drop : (s : List ℕ) (n i j : ℕ) → j ≡ n + i → get_or (drop n s) i 0 ≡ char s j
get_or-drop s zero i j e = let e' : j ≡ i = omega (arith, e) in rw e' refl
get_or-drop [] (suc n) i j e = refl
get_or-drop (x ∷ s) (suc n) i zero e = absurd (omega arith)
get_or-drop (x ∷ s) (suc n) i (suc j) e = get_or-drop s n i j (omega arith)

-- Either no place from `from` on holds the character, or the first one that does is found.
abbrev pub Finds : List ℕ → ℕ → ℕ → Option ℕ → Type 0
Finds s from c none = (i : ℕ) → from ≤ i → i < length s → char s i ≢ c
Finds s from c (some p) =
    (from ≤ p) × (p < length s) × (char s p ≡ c) × ((i : ℕ) → from ≤ i → i < p → char s i ≢ c)

find_char-Finds :
    (s : List ℕ) (c at : ℕ)
    → ((find_char s c at ≡ none) × ((i : ℕ) → i < length s → char s i ≢ c))
      ⊎ ((k : ℕ) × (find_char s c at ≡ some (at + k))
          × (k < length s)
          × (char s k ≡ c)
          × ((i : ℕ) → i < k → char s i ≢ c))
find_char-Finds [] c at = inl (refl, λ i h. absurd (omega arith))
find_char-Finds (x ∷ s) c at = elim (Bool-cases (x == c)) [
  | inl e ↦
      inr (0, rw e (ap some (omega arith)), omega arith, ground arith, λ i h. absurd (omega arith))
  | inr e ↦ elim (find_char-Finds s c (at + 1)) [
    | inl (f, all) ↦
        inl (rw (e, f) refl, elim [ zero ↦ λ h. ground arith | suc i ↦ λ h. all i (omega arith) ])
    | inr (k, f, l, g, all) ↦ inr (
      suc k,
      rw (e, f) (ap some (omega arith)),
      omega arith,
      g,
      elim [ zero ↦ λ h. ground arith | suc i ↦ λ h. all i (omega arith) ],
    )
  ]
]

strchr-Finds : (s : List ℕ) (from c : ℕ) → from ≤ length s → Finds s from c (strchr s from c)
strchr-Finds s from c h = elim (find_char-Finds (drop from s) c from) [
  | inl (f, all) ↦ rw f λ i a b.
      let e = get_or-drop s from (i - from) i (omega arith) in
      λ q. all (i - from) (omega (arith, length-drop from s)) (e ∙ q)
  | inr (k, f, l, g, all) ↦ rw f (
    omega arith,
    omega (arith, length-drop from s),
    sym (get_or-drop s from k (from + k) refl) ∙ g,
    λ i a b.
        let e = get_or-drop s from (i - from) i (omega arith) in
        λ q. all (i - from) (omega arith) (e ∙ q),
  )
]

-- The loop over one wildcard accepts if each of its places is next to slashes.
abbrev Placed : List ℕ → ℕ → ℕ → Type 0
Placed s from c = (i : ℕ) → from ≤ i → i < length s → char s i ≡ c → next_to_slash s i ≡ true

and_if : (t rc : Bool) → ((if t then rc else false) ≡ true) ↔ ((t ≡ true) × (rc ≡ true))
and_if true rc = (λ e. (refl, e), λ e. e.1)
and_if false rc = (λ e. cc, λ e. e.0)

wildcard_loop-Placed :
    (fuel : ℕ) (s : List ℕ) (c from : ℕ) (pos : Option ℕ) (rc : Bool)
    → from ≤ length s
    → length s < fuel + from
    → Finds s from c pos
    → (wildcard_loop fuel s c pos rc ≡ true) ↔ ((rc ≡ true) × Placed s from c)
unfolding wildcard_loop
wildcard_loop-Placed zero s c from pos rc a b f = absurd (omega arith)
wildcard_loop-Placed (suc fuel) s c from none rc a b f =
    (λ e. (e, λ i h l q. absurd (f i h l q)), λ e. e.0)
wildcard_loop-Placed (suc fuel) s c from (some p) rc a b (h, l, g, all) =
    let ih =
      wildcard_loop-Placed fuel s c (p + 1) (strchr s (p + 1) c)
        (if next_to_slash s p then rc else false) (omega arith) (omega arith)
        (strchr-Finds s (p + 1) c (omega arith)) in
    (
      λ e.
          let (r, placed) = ih.0 e in
          let (ok, r') = (and_if (next_to_slash s p) rc).0 r in
          (r', extend s c from p ok all placed),
      λ (r, placed). ih.1 (
        (and_if (next_to_slash s p) rc).1 (placed p h l g, r),
        λ i h' l' q. placed i (omega arith) l' q,
      ),
    )
  where
    extend :
        (s : List ℕ) (c from p : ℕ)
        → next_to_slash s p ≡ true
        → ((i : ℕ) → from ≤ i → i < p → char s i ≢ c)
        → Placed s (p + 1) c
        → Placed s from c
    extend s c from p ok all placed i h l q = elim (dec_lt i p) [
      | yes lt ↦ absurd (all i h lt q)
      | no ge ↦ elim (dec_lt p i) [
        | yes gt ↦ placed i (omega arith) l q
        | no le ↦ let e : i ≡ p = omega arith in rw e ok
      ]
    ]

-- A '#' stands first or last, and no other one behind it.
abbrev pub HashAtEnd : List ℕ → Type 0
HashAtEnd s =
    (i : ℕ)
    → i < length s
    → char s i ≡ b'#'
    → ((i ≡ 0) ⊎ (suc i ≡ length s)) × ((j : ℕ) → i < j → j < length s → char s j ≢ b'#')

strchr-none :
    (s : List ℕ) (from c : ℕ) → from ≤ length s → (strchr s from c ≡ none) ↔ Finds s from c none
strchr-none s from c h = (
  λ e. subst (Finds s from c) e (strchr-Finds s from c h),
  λ f. elim (Option-cases (strchr s from c)) [
    | inl e ↦ e
    | inr (p, e) ↦
        let (a, b, q, all) : Finds s from c (some p) =
          subst (Finds s from c) e (strchr-Finds s from c h) in
        absurd (f p a b q)
  ],
)

check_some :
    (s : List ℕ) (p : ℕ)
    → p < length s
    → (check_hash s (some p) ≡ true)
      ↔ (((p ≡ 0) ⊎ (suc p ≡ length s)) × (strchr s (p + 1) b'#' ≡ none))
check_some s p l = (λ e. ground arith, λ e. ground arith)

check_hash-HashAtEnd :
    (s : List ℕ) (pos : Option ℕ) → Finds s 0 b'#' pos → (check_hash s pos ≡ true) ↔ HashAtEnd s
check_hash-HashAtEnd s none f = (λ e i l q. absurd (f i (omega arith) l q), λ h. refl)
check_hash-HashAtEnd s (some p) (h, l, g, all) =
    let after = strchr-none s (p + 1) b'#' (omega arith) in
    (
      λ e i l' q.
          let (ends, no_more) = (check_some s p l).0 e in
          elim (dec_lt i p) [
            | yes lt ↦ absurd (all i (omega arith) lt q)
            | no ge ↦ elim (dec_lt p i) [
              | yes gt ↦ absurd (after.0 no_more i (omega arith) l' q)
              | no le ↦
                  let same : i ≡ p = omega arith in
                  (rw same ends, λ j a b. after.0 no_more j (omega arith) b)
            ]
          ],
      λ f.
          let (ends, no_more) = f p l g in
          (check_some s p l).1 (ends, after.1 (λ j a b. no_more j (omega arith) b)),
    )

-- A wildcard stands between slashes or the ends of the name.
abbrev pub WildcardsApart : List ℕ → Type 0
WildcardsApart s =
    (i : ℕ)
    → i < length s
    → ((char s i ≡ b'#') ⊎ (char s i ≡ b'+'))
    → ((i ≡ 0) ⊎ (char s (i - 1) ≡ b'/')) × ((char s (i + 1) ≡ 0) ⊎ (char s (i + 1) ≡ b'/'))

next_to_slash_iff :
    (s : List ℕ) (i : ℕ)
    → (next_to_slash s i ≡ true)
      ↔ (((i ≡ 0) ⊎ (char s (i - 1) ≡ b'/')) × ((char s (i + 1) ≡ 0) ⊎ (char s (i + 1) ≡ b'/')))
next_to_slash_iff s i = (λ e. ground arith, λ e. ground arith)

-- A name is valid exactly if each wildcard in it fills a level, and a '#' is first or last and has
-- no other behind it.
pub is_valid_name_iff : (s : List ℕ) → (is_valid_name s ≡ true) ↔ (HashAtEnd s × WildcardsApart s)
unfolding is_valid_name
is_valid_name_iff s =
    let start = strchr-Finds s 0 in
    let h = check_hash-HashAtEnd s (strchr s 0 b'#') (start b'#' (omega arith)) in
    let hash =
      wildcard_loop-Placed (length s + 1) s b'#' 0 (strchr s 0 b'#')
        (check_hash s (strchr s 0 b'#')) (omega arith) (omega arith) (start b'#' (omega arith)) in
    let plus =
      wildcard_loop-Placed (length s + 1) s b'+' 0 (strchr s 0 b'+')
        (check_wildcard s b'#' (check_hash s (strchr s 0 b'#'))) (omega arith) (omega arith)
        (start b'+' (omega arith)) in
    (
      λ e.
          let (e', at_plus) = plus.0 e in
          let (e'', at_hash) = hash.0 e' in
          (
            h.0 e'',
            λ i l q. (next_to_slash_iff s i).0 (elim q [
              | inl c ↦ at_hash i (omega arith) l c
              | inr c ↦ at_plus i (omega arith) l c
            ]),
          ),
      λ (at_end, apart). plus.1 (
        hash.1 (h.1 at_end, λ i a l c. (next_to_slash_iff s i).1 (apart i l (inl c))),
        λ i a l c. (next_to_slash_iff s i).1 (apart i l (inr c)),
      ),
    )

-- A topic has wildcards exactly if one of its characters is one.
pub has_wildcards_iff :
    (s : List ℕ)
    → (has_wildcards s ≡ false) ↔ ((i : ℕ) → i < length s → (char s i ≢ b'+') × (char s i ≢ b'#'))
unfolding has_wildcards
has_wildcards_iff s =
    let plus = strchr-none s 0 b'+' (omega arith) in
    let hash = strchr-none s 0 b'#' (omega arith) in
    (
      λ e i l.
          let n : (strchr s 0 b'+' ≡ none) × (strchr s 0 b'#' ≡ none) = ground arith in
          (plus.0 n.0 i (omega arith) l, hash.0 n.1 i (omega arith) l),
      λ f. rw (plus.1 (λ i a l. (f i l).0), hash.1 (λ i a l. (f i l).1)) refl,
    )
