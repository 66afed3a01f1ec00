-- ===== src/Topics/Matching.antt =====
-- What `Topics_matches` decides.
use mathlib.Core.List.{reverse}
use u_mqttbroker.Base.{
  ℕ, ◌≡◌, ◌≢◌, ◌↔◌, ◌⊎◌, inl, inr, refl, sym, subst, Bool, true, false, not, ◌&&◌, ◌||◌, List, [],
  ◌∷◌, arith, if◌then◌else◌, ◌==◌, str_eq, str_eq→eq, str_eq_iff, Bool-cases,
}
use u_mqttbroker.Topics.{separator, multi_level, matches, has_wildcards, is_valid_name, first_char}
use u_mqttbroker.Topics.Reverse.{strrev_lem}
use u_mqttbroker.Topics.Tokens.{
  levels, Matches, any_rest, match_levels_lem, level_match, level_match_iff,
}

abbrev pub slash_hash : List ℕ
slash_hash = b'/' ∷ b'#' ∷ []

-- A subscription that starts with '#' is compared from the end.
abbrev pub facing : List ℕ → List ℕ → List ℕ
facing wild s = if first_char wild == b'#' then reverse s else s

-- The subscription starts with a slash only if the topic does, and with '+' only if it does not.
abbrev pub SameStart : List ℕ → List ℕ → Type 0
SameStart wild topic =
    (first_char wild ≡ b'/' → first_char topic ≡ b'/')
    × (first_char wild ≡ b'+' → first_char topic ≢ b'/')

-- The two are equal, or match level by level; "#" alone does not match what starts with '$'.
abbrev pub Accepts : List ℕ → List ℕ → Type 0
Accepts wild topic =
    (wild ≡ topic)
    ⊎ ((wild ≡ multi_level → first_char topic ≢ b'$')
        × SameStart wild topic
        × Matches (levels (facing wild wild)) (levels (facing wild topic)))

abbrev same_start : List ℕ → List ℕ → Bool
same_start wild topic =
    not ((first_char wild == separator) && not (first_char topic == separator))
    && not ((first_char wild == b'+') && (first_char topic == separator))

abbrev accepts : List ℕ → List ℕ → Bool
accepts wild topic =
    if str_eq wild multi_level
    then not (first_char topic == b'$')
    else if str_eq wild slash_hash
    then first_char topic == b'/'
    else same_start wild topic
      && level_match (levels (facing wild wild)) (levels (facing wild topic))

matches-accepts :
    (wild topic : List ℕ)
    → matches wild true topic ≡ (
        not (has_wildcards topic)
        && (is_valid_name wild
            && (is_valid_name topic && (str_eq wild topic || accepts wild topic))))
unfolding matches
matches-accepts wild topic = ground (
  arith,
  strrev_lem wild,
  strrev_lem topic,
  match_levels_lem wild topic,
  match_levels_lem (reverse wild) (reverse topic),
)

-- Any topic matches a subscription whose only level is '#'.
hash-Matches : (ts : List (List ℕ)) → Matches (levels multi_level) ts
unfolding levels
hash-Matches ts = any_rest [] ts

slash_hash-Matches : (ts : List (List ℕ)) → Matches (levels slash_hash) ts
unfolding levels
slash_hash-Matches ts = any_rest [] ts

accepts_iff :
    (wild topic : List ℕ)
    → (accepts wild topic ≡ true) ↔ (
        (wild ≡ multi_level → first_char topic ≢ b'$')
        × SameStart wild topic
        × Matches (levels (facing wild wild)) (levels (facing wild topic)))
accepts_iff wild topic = elim (Bool-cases (str_eq wild multi_level)) [
  | inl e ↦
      subst
        (λ w. (accepts w topic ≡ true) ↔ (
          (w ≡ multi_level → first_char topic ≢ b'$')
          × SameStart w topic
          × Matches (levels (facing w w)) (levels (facing w topic))))
        (sym (str_eq→eq wild multi_level e))
        (
          λ h. (λ q. ground arith, (λ q. ground arith, λ q. ground arith), hash-Matches _),
          λ (hidden, start, m). let f : first_char topic ≢ b'$' = hidden refl in ground arith,
        )
  | inr ne ↦ elim (Bool-cases (str_eq wild slash_hash)) [
    | inl e ↦
        subst
          (λ w. (accepts w topic ≡ true) ↔ (
            (w ≡ multi_level → first_char topic ≢ b'$')
            × SameStart w topic
            × Matches (levels (facing w w)) (levels (facing w topic))))
          (sym (str_eq→eq wild slash_hash e))
          (
            λ h. (λ q. absurd (cc), (λ q. ground arith, λ q. ground arith), slash_hash-Matches _),
            λ (hidden, start, m). let f : first_char topic ≡ b'/' = start.0 refl in ground arith,
          )
    | inr ne' ↦
        rw (ne, ne')
          (
            λ h. (
              λ q. absurd (ground (arith, str_eq_iff wild multi_level)),
              (λ q. ground arith, λ q. ground arith),
              (level_match_iff _ _).0 (ground arith),
            ),
            λ (hidden, start, m).
                let l = (level_match_iff _ _).1 m in ground (arith, l, start.0, start.1),
          )
  ]
]

-- `Topics_matches` with wildcards says yes exactly if the topic has none, both names are valid, and
-- they are equal or match level by level.
pub matches_iff :
    (wild topic : List ℕ)
    → (matches wild true topic ≡ true) ↔ (
        (has_wildcards topic ≡ false)
        × (is_valid_name wild ≡ true)
        × (is_valid_name topic ≡ true)
        × Accepts wild topic)
matches_iff wild topic =
    let b = matches-accepts wild topic in
    let a = accepts_iff wild topic in
    (
      λ e. (
        ground (arith, b),
        ground (arith, b),
        ground (arith, b),
        elim (Bool-cases (str_eq wild topic)) [
          | inl same ↦ inl (str_eq→eq wild topic same)
          | inr other ↦ inr (a.0 (ground (arith, b)))
        ],
      ),
      λ (h, v, v', acc). elim acc [
        | inl same ↦ ground (arith, b, str_eq_iff wild topic)
        | inr m ↦ ground (arith, b, a.1 m)
      ],
    )
