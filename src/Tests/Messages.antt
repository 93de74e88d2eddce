-- ===== src/Tests/Messages.antt =====
-- The messages of lib/conn at concrete inputs.
use nps_socks.Net.Stream.{bytes}
use nps_socks.Wire.{read_flag, get_info, send_info, get_len_bytes}
use nps_socks.Prelude.{codes, Text, ◌++◌, take, ◌∷◌, drop, [], ◌≡◌, some, length, ℕ, arith, refl}
use nps_socks.Wire.{filled}
use nps_socks.Wire.RoundTrip.{get_info-send_info}

abbrev flag : Text
flag = codes "host"

abbrev message : Text
message = flag ++ (2 ∷ 0 ∷ 0 ∷ 0 ∷ codes "{}")

get_info-send_info_example :
    ((read_flag ((take 5 message) ∷ (drop 5 message ++ codes "!") ∷ [])).1 ≡ some flag)
    × ((get_info
          (λ b. some (length b))
          (read_flag ((take 5 message) ∷ (drop 5 message ++ codes "!") ∷ [])).0).1
        ≡ filled (some 2))
    × (bytes
          (get_info
            (λ b. some (length b))
            (read_flag ((take 5 message) ∷ (drop 5 message ++ codes "!") ∷ [])).0).0
        ≡ codes "!")
get_info-send_info_example =
    get_info-send_info (λ (n : ℕ). some (codes "{}")) (λ b. some (length b)) 2 flag (codes "{}")
      message (codes "!") ((take 5 message) ∷ (drop 5 message ++ codes "!") ∷ []) refl refl
      (omega arith) (omega arith) (unfold send_info get_len_bytes in refl) refl

abbrev health_bytes : Text
health_bytes = 12 ∷ 0 ∷ 0 ∷ 0 ∷ codes "a.b:8*#*1*#*"
