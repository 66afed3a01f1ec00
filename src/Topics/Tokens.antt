-- ===== src/Topics/Tokens.antt =====
-- The loop over `strtok_r` compares level by level.
use u_mqttbroker.Base.{
  ℕ, zero, suc, ◌+◌, ◌≤◌, ◌<◌, ◌≡◌, ◌⊎◌, inl, inr, refl, sym, ap, ◌∙◌, Bool, true, false, ◌&&◌,
  ◌||◌, Option, none, some, List, [], ◌∷◌, arith, if◌then◌else◌, ◌==◌, length, str_eq, Bool-cases,
  str_eq→eq, str_eq_iff, ◌↔◌,
}
use u_mqttbroker.Topics.{
  separator, multi_level, single_level, skip_slashes, take_token, token_of, strtok_r, match_loop,
  match_levels,
}

-- The parts between slashes, and the levels: the parts that are not empty.
abbrev pub onto_first : ℕ → List (List ℕ) → List (List ℕ)
onto_first c [] = (c ∷ []) ∷ []
onto_first c (p ∷ ps) = (c ∷ p) ∷ ps

abbrev pub parts : List ℕ → List (List ℕ)
parts [] = [] ∷ []
parts (c ∷ s) = let rest = parts s in if c == separator then [] ∷ rest else onto_first c rest

abbrev pub not_empty : List (List ℕ) → List (List ℕ)
not_empty [] = []
not_empty ([] ∷ ps) = not_empty ps
not_empty ((c ∷ p) ∷ ps) = (c ∷ p) ∷ not_empty ps

unfoldable pub levels : List ℕ → List (List ℕ)
levels s = not_empty (parts s)

levels-skip_slashes : (s : List ℕ) → not_empty (parts (skip_slashes s)) ≡ not_empty (parts s)
levels-skip_slashes [] = refl
levels-skip_slashes (c ∷ s) = ground (arith, levels-skip_slashes s)

-- A token is the first part; what is left has the other levels.
take_token-parts :
    (s : List ℕ)
    → (ps : List (List ℕ)) × (parts s ≡ (take_token s).0 ∷ ps)
      × (not_empty ps ≡ not_empty (parts (take_token s).1))
      × (length (take_token s).1 ≤ length s)
take_token-parts [] = ([], refl, refl, omega arith)
take_token-parts (c ∷ s) = elim (Bool-cases (c == separator)) [
  | inl slash ↦ (parts s, rw slash refl, rw slash refl, rw slash (omega arith))
  | inr plain ↦
      let (ps, e, f, l) = take_token-parts s in
      (ps, rw (plain, e) refl, rw plain f, rw plain (omega (arith, l)))
]

skip_slashes-first :
    (s s' : List ℕ) (c : ℕ)
    → skip_slashes s ≡ c ∷ s'
    → ((c == separator) ≡ false) × (suc (length s') ≤ length s)
skip_slashes-first [] s' c e = cc
skip_slashes-first (x ∷ s) s' c e = ground (arith, skip_slashes-first s s' c)

token_of-levels :
    (s s' : List ℕ)
    → skip_slashes s ≡ s'
    → ((token_of s').0 ≡ none) × (levels s ≡ [])
      ⊎ ((t : List ℕ) × ((token_of s').0 ≡ some t)
          × (levels s ≡ t ∷ levels (token_of s').1)
          × (length (token_of s').1 < length s))
unfolding levels
token_of-levels s [] e = inl (refl, sym (levels-skip_slashes s) ∙ rw e refl)
token_of-levels s (c ∷ s') e =
    let (plain, shorter) = skip_slashes-first s s' c e in
    let (ps, e', f, l) = take_token-parts s' in
    inr (
      c ∷ (take_token s').0,
      rw plain refl,
      sym (levels-skip_slashes s) ∙ rw (e, plain, e') (ap (◌∷◌ (c ∷ (take_token s').0)) f),
      rw plain (omega (arith, shorter, l)),
    )

-- `strtok_r` takes the next level, and makes the text shorter.
pub strtok_r-levels :
    (s : List ℕ)
    → let (t, rest) = strtok_r s in
      (t ≡ none) × (levels s ≡ [])
      ⊎ ((token : List ℕ) × (t ≡ some token)
          × (levels s ≡ token ∷ levels rest)
          × (length rest < length s))
unfolding strtok_r
strtok_r-levels s = token_of-levels s (skip_slashes s) refl

-- A subscription's levels against a topic's.
abbrev pub level_match : List (List ℕ) → List (List ℕ) → Bool
level_match [] [] = true
level_match [] (t ∷ ts) = false
level_match (w ∷ ws) [] = str_eq w multi_level
level_match (w ∷ ws) (t ∷ ts) =
    let rest = level_match ws ts in
    if str_eq w multi_level then true else (str_eq w single_level || str_eq w t) && rest

-- The levels that a call of `strtok_r` stands for: the token that it gave and those to come.
abbrev ahead : Option (List ℕ) → List ℕ → List (List ℕ)
ahead none s = []
ahead (some t) s = t ∷ levels s

ahead-strtok_r :
    (s : List ℕ)
    → (ahead (strtok_r s).0 (strtok_r s).1 ≡ levels s)
      × ((strtok_r s).0 ≡ none ⊎ (length (strtok_r s).1 < length s))
ahead-strtok_r s = elim (strtok_r-levels s) [
  | inl (e, l) ↦ (rw (e, l) refl, inl e)
  | inr (t, e, l, h) ↦ (rw (e, l) refl, inr h)
]

match_loop-level_match :
    (fuel : ℕ) (w : Option (List ℕ)) (s : List ℕ) (t : Option (List ℕ)) (s' : List ℕ)
    → (w ≡ none) ⊎ (length s + 1 < fuel)
    → 0 < fuel
    → match_loop fuel w s t s' ≡ level_match (ahead w s) (ahead t s')
unfolding match_loop
match_loop-level_match zero w s t s' h p = absurd (omega arith)
match_loop-level_match (suc fuel) none s none s' h p = refl
match_loop-level_match (suc fuel) none s (some t) s' h p = refl
match_loop-level_match (suc fuel) (some w) s none s' h p = refl
match_loop-level_match (suc fuel) (some w) s (some t) s' h p = ground (
  arith,
  ahead-strtok_r s,
  ahead-strtok_r s',
  match_loop-level_match fuel (strtok_r s).0 (strtok_r s).1 (strtok_r s').0 (strtok_r s').1,
)

-- The loop over the tokens of both names is the match of their lists of levels: the fuel is enough.
pub match_levels_lem :
    (wild topic : List ℕ) → match_levels wild topic ≡ level_match (levels wild) (levels topic)
match_levels_lem wild topic = ground (
  arith,
  ahead-strtok_r wild,
  ahead-strtok_r topic,
  match_loop-level_match (length wild + 1) (strtok_r wild).0 (strtok_r wild).1 (strtok_r topic).0
      (strtok_r topic).1,
)

-- When a subscription's levels match a topic's.
pub data Matches : List (List ℕ) → List (List ℕ) → Type 0 where
  done : Matches [] []
  any_rest : (ws ts : List (List ℕ)) → Matches (multi_level ∷ ws) ts
  level :
      (w t : List ℕ) (ws ts : List (List ℕ))
      → (w ≡ single_level) ⊎ (w ≡ t)
      → Matches ws ts
      → Matches (w ∷ ws) (t ∷ ts)

level_match_complete : (ws ts : List (List ℕ)) → Matches ws ts → level_match ws ts ≡ true
level_match_complete _ _ done = refl
level_match_complete _ _ (any_rest ws []) = refl
level_match_complete _ _ (any_rest ws (t ∷ ts)) = refl
level_match_complete _ _ (level w t ws ts h m) =
    ground (arith, level_match_complete ws ts m, str_eq_iff w single_level, str_eq_iff w t)

level_match_sound : (ws ts : List (List ℕ)) → level_match ws ts ≡ true → Matches ws ts
level_match_sound [] [] h = done
level_match_sound [] (t ∷ ts) h = cc
level_match_sound (w ∷ ws) [] h = rw (str_eq→eq w multi_level h) (any_rest ws [])
level_match_sound (w ∷ ws) (t ∷ ts) h = elim (Bool-cases (str_eq w multi_level)) [
  | inl e ↦ rw (str_eq→eq w multi_level e) (any_rest ws (t ∷ ts))
  | inr e ↦
      level w t ws ts (ground (arith, str_eq_iff w single_level, str_eq_iff w t))
        (level_match_sound ws ts (ground arith))
]

-- `level_match` decides the relation.
pub level_match_iff : (ws ts : List (List ℕ)) → (level_match ws ts ≡ true) ↔ Matches ws ts
level_match_iff ws ts = (level_match_sound ws ts, level_match_complete ws ts)
