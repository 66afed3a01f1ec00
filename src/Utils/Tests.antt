-- ===== src/Utils/Tests.antt =====
-- Runs of the readers of addresses and hexadecimal numbers.
use u_mqttbroker.Base.{ℕ, ◌≡◌, refl, true, false, some, List, [], ◌∷◌, ◌&&◌, ◌==◌, length}
use u_mqttbroker.Utils.{dot, is_ipv4, str_to_ip, atoh}
use u_mqttbroker.Utils.Ip.{split, is_group, all_groups, is_ipv4_lem}

-- "999.1.1.1"
abbrev high : List ℕ
high = b'9' ∷ b'9' ∷ b'9' ∷ dot ∷ b'1' ∷ dot ∷ b'1' ∷ dot ∷ b'1' ∷ []

runs :
    (is_ipv4 (some high) ≡ true)
    × ((str_to_ip high).0 ≡ false)
    × (atoh (b'1' ∷ b'F' ∷ b'x' ∷ []) ≡ 31)
unfolding is_ipv4 str_to_ip atoh
runs = (refl, refl, refl)

is_ipv4_example :
    is_ipv4 (some high)
    ≡ is_group (split high).0 && all_groups (split high).1 && (length (split high).1 == 3)
is_ipv4_example = is_ipv4_lem high
