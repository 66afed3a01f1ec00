-- ===== src/Topics.antt =====
-- src/mqtt_topics.c: topic names and the match of a subscription with a topic. A C string is the
-- list of its bytes without the final 0, none of which is 0; a pointer into it is an index.
-- `_strdup` copies, and its `os_malloc`, whose result the code does not test, is taken to succeed.
pub mod Reverse
pub mod Tokens
pub mod Names
pub mod Matching
pub mod Slashes
mod Tests
use u_mqttbroker.Base.{
  ℕ, zero, suc, ◌+◌, ◌-◌, Bool, true, false, not, ◌&&◌, ◌||◌, Option, none, some, List, [], ◌∷◌,
  if◌then◌else◌, ltb, ◌==◌, set, get_or, length, drop, str_eq,
}

abbrev pub separator : ℕ
separator = b'/'

abbrev pub multi_level : List ℕ
multi_level = b'#' ∷ []

abbrev pub single_level : List ℕ
single_level = b'+' ∷ []

-- The library's `strchr(s + from, c) - s`.
abbrev pub find_char : List ℕ → ℕ → ℕ → Option ℕ
find_char [] c at = none
find_char (x ∷ s) c at = let rest = find_char s c (at + 1) in if x == c then some at else rest

abbrev pub strchr : List ℕ → ℕ → ℕ → Option ℕ
strchr s from c = find_char (drop from s) c from

abbrev pub is_none {ℓ} : {A : Type ℓ} → Option A → Bool
is_none none = true
is_none (some a) = false

-- `*(pos - 1)` and `*(pos + 1)` are slashes, or `pos` stands at that end.
abbrev pub next_to_slash : List ℕ → ℕ → Bool
next_to_slash s pos =
    (if ltb 0 pos then get_or s (pos - 1) 0 == separator else true)
    && (if get_or s (pos + 1) 0 == 0 then true else get_or s (pos + 1) 0 == separator)

-- `while (pos != NULL)`: each round goes on behind the last position.
unfoldable pub wildcard_loop : ℕ → List ℕ → ℕ → Option ℕ → Bool → Bool
wildcard_loop zero s c pos rc = rc
wildcard_loop (suc fuel) s c none rc = rc
wildcard_loop (suc fuel) s c (some pos) rc =
    wildcard_loop fuel s c (strchr s (pos + 1) c) (if next_to_slash s pos then rc else false)

abbrev pub check_wildcard : List ℕ → ℕ → Bool → Bool
check_wildcard s c rc = wildcard_loop (length s + 1) s c (strchr s 0 c) rc

-- The test of the first '#' and of a second one.
abbrev pub check_hash : List ℕ → Option ℕ → Bool
check_hash s none = true
check_hash s (some hashpos) = not (
    (not (hashpos == 0) && not (hashpos == length s - 1))
    || not (is_none (strchr s (hashpos + 1) b'#')))

unfoldable pub is_valid_name : List ℕ → Bool
unfolding wildcard_loop
is_valid_name s = check_wildcard s b'+' (check_wildcard s b'#' (check_hash s (strchr s 0 b'#')))

unfoldable pub has_wildcards : List ℕ → Bool
has_wildcards topic = not (is_none (strchr topic 0 b'+')) || not (is_none (strchr topic 0 b'#'))

-- `while (forwards < backwards)` of `_strrev`, with fuel.
unfoldable pub strrev_loop : ℕ → List ℕ → ℕ → ℕ → List ℕ
strrev_loop zero s forwards backwards = s
strrev_loop (suc fuel) s forwards backwards = elim (ltb forwards backwards) [
  | true ↦
      strrev_loop fuel (set (set s forwards (get_or s backwards 0)) backwards (get_or s forwards 0))
        (forwards + 1) (backwards - 1)
  | false ↦ s
]

unfoldable pub strrev : List ℕ → List ℕ
unfolding strrev_loop
strrev s = if ltb 1 (length s) then strrev_loop (length s) s 0 (length s - 1) else s

-- The library's `strtok_r` with the delimiter "/": leading slashes are skipped; what is left after
-- the token and its slash is kept.
abbrev pub skip_slashes : List ℕ → List ℕ
skip_slashes [] = []
skip_slashes (c ∷ s) = let rest = skip_slashes s in if c == separator then rest else c ∷ s

abbrev pub take_token : List ℕ → List ℕ × List ℕ
take_token [] = ([], [])
take_token (c ∷ s) =
    let (token, rest) = take_token s in if c == separator then ([], s) else (c ∷ token, rest)

abbrev pub token_of : List ℕ → Option (List ℕ) × List ℕ
token_of [] = (none, [])
token_of (c ∷ s) = let (token, rest) = take_token (c ∷ s) in (some token, rest)

unfoldable pub strtok_r : List ℕ → Option (List ℕ) × List ℕ
strtok_r s = token_of (skip_slashes s)

-- The loop over the levels, with fuel, and the test behind it: `pwild`, `last1`, `pmatch`, `last2`.
unfoldable pub match_loop : ℕ → Option (List ℕ) → List ℕ → Option (List ℕ) → List ℕ → Bool
match_loop zero pwild last₁ pmatch last₂ = false
match_loop (suc fuel) none last₁ pmatch last₂ = is_none pmatch
match_loop (suc fuel) (some w) last₁ none last₂ = str_eq w multi_level
match_loop (suc fuel) (some w) last₁ (some t) last₂ =
    let (pwild, last₁') = strtok_r last₁ in
    let (pmatch, last₂') = strtok_r last₂ in
    let rest = match_loop fuel pwild last₁' pmatch last₂' in
    if str_eq w multi_level
    then true
    else if not (str_eq w single_level) && not (str_eq w t)
    then false
    else rest

abbrev pub match_levels : List ℕ → List ℕ → Bool
match_levels wild topic =
    let (pwild, last₁) = strtok_r wild in
    let (pmatch, last₂) = strtok_r topic in match_loop (length wild + 1) pwild last₁ pmatch last₂

-- `wildTopic[0]`, which is 0 for the empty string.
abbrev pub first_char : List ℕ → ℕ
first_char s = get_or s 0 0

unfoldable pub matches : List ℕ → Bool → List ℕ → Bool
matches wild wildcards topic =
    if not wildcards
    then str_eq wild topic
    else if has_wildcards topic
    then false
    else if not (is_valid_name wild)
    then false
    else if not (is_valid_name topic)
    then false
    else if str_eq wild topic
    then true
    else if str_eq wild multi_level
    then not (first_char topic == b'$')
    else if str_eq wild (b'/' ∷ b'#' ∷ [])
    then first_char topic == b'/'
    else if (first_char wild == separator) && not (first_char topic == separator)
    then false
    else if (first_char wild == b'+') && (first_char topic == separator)
    then false
    else if first_char wild == b'#'
    then match_levels (strrev wild) (strrev topic)
    else match_levels wild topic
