-- ===== src/Topics/Tests.antt =====
-- Runs of the topic functions.
use u_mqttbroker.Base.{ℕ, ◌≡◌, ◌↔◌, refl, true, false, List, [], ◌∷◌, ◌++◌}
use u_mqttbroker.Topics.{matches, has_wildcards, is_valid_name, strrev, strtok_r, match_loop}
use u_mqttbroker.Topics.Tokens.{levels, level_match, Matches, level_match_iff}
use u_mqttbroker.Topics.Names.{HashAtEnd, WildcardsApart, is_valid_name_iff}
use u_mqttbroker.Topics.Matching.{Accepts, matches_iff}
use u_mqttbroker.Topics.Slashes.{matches_double_slash}

-- "a/+", "a/b", "a", "b"
abbrev wild : List ℕ
wild = b'a' ∷ b'/' ∷ b'+' ∷ []

abbrev topic : List ℕ
topic = b'a' ∷ b'/' ∷ b'b' ∷ []

runs :
    (matches wild true topic ≡ true)
    × (matches topic true wild ≡ false)
    × (is_valid_name (b'a' ∷ b'+' ∷ []) ≡ false)
    × (strrev wild ≡ b'+' ∷ b'/' ∷ b'a' ∷ [])
unfolding matches has_wildcards is_valid_name strrev strtok_r match_loop
runs = (refl, refl, refl, refl)

level_match_example :
    (level_match (levels wild) (levels topic) ≡ true) ↔ Matches (levels wild) (levels topic)
level_match_example = level_match_iff (levels wild) (levels topic)

is_valid_name_example : (is_valid_name wild ≡ true) ↔ (HashAtEnd wild × WildcardsApart wild)
is_valid_name_example = is_valid_name_iff wild

matches_example : (matches wild true topic ≡ true) ↔ (
    (has_wildcards topic ≡ false)
    × (is_valid_name wild ≡ true)
    × (is_valid_name topic ≡ true)
    × Accepts wild topic)
matches_example = matches_iff wild topic

matches_double_slash_example :
    matches ((b'a' ∷ []) ++ b'/' ∷ b'b' ∷ []) true ((b'a' ∷ []) ++ b'/' ∷ b'/' ∷ b'b' ∷ []) ≡ true
unfolding has_wildcards
matches_double_slash_example = matches_double_slash (b'a' ∷ []) (b'b' ∷ []) refl refl
