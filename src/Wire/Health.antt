-- ===== src/Wire/Health.antt =====
-- lib/conn/conn.go and lib/common/util.go: the message on a target's health.
use nps_socks.Common.Arrays.{get_bool_by_str}
use nps_socks.Net.Stream.{bytes}
use nps_socks.Wire.RoundTrip.{Gives, get_content-get_len_bytes}
use nps_socks.Net.{Chunks}
use nps_socks.Wire.{
  get_write_str, Reply, get_health_info, send_health_info, binary_write, conn_data_seq, health_of,
  health_parts, get_content,
}
use nps_socks.Prelude.{
  split_from, Text, List, All, ◌≢◌, split_text, length, ◌++◌, ◌∷◌, ◌+◌, ◌≡◌, [], ◌≤◌, arith, ◌∙◌,
  ap, some, refl, length-append, some_inj, none,
}

split-conn_data_seq :
    (piece rest : Text)
    → All (λ c. c ≢ 42) piece
    → split_text (piece ++ (conn_data_seq ++ rest)) conn_data_seq
      ≡ piece ∷ split_text rest conn_data_seq
unfolding split_from
split-conn_data_seq [] rest h = refl
split-conn_data_seq (x ∷ piece) rest h = ground (arith, split-conn_data_seq piece rest h.1)

-- The pieces that GetWriteStr puts together are those of the split, and an empty one.
split-get_write_str :
    (vs : List Text)
    → All (All (λ c. c ≢ 42)) vs
    → split_text (get_write_str vs) conn_data_seq ≡ vs ++ [] ∷ []
unfolding get_write_str split_from
split-get_write_str [] h = refl
split-get_write_str (v ∷ vs) h =
    split-conn_data_seq v (get_write_str vs) h.0 ∙ ap (λ t. v ∷ t) (split-get_write_str vs h.1)

health_of-Gives :
    (r : Reply Text) (info status rest : Text)
    → All (λ c. c ≢ 42) info
    → All (λ c. c ≢ 42) status
    → Gives r (get_write_str (info ∷ status ∷ [])) rest
    → Gives (health_of r) (info, get_bool_by_str status) rest
health_of-Gives (cs, none) info status rest i s (e, left) = absurd (ground (arith, e))
health_of-Gives (cs, some b) info status rest i s (e, left) =
    let pieces = split-get_write_str (info ∷ status ∷ []) (i, (s, tt)) in
    (
      ap (λ t. health_parts (split_text t conn_data_seq)) (some_inj e) ∙ ap health_parts pieces,
      left,
    )

-- What SendHealthInfo writes, GetHealthInfo reads back however it is cut into chunks: the target and
-- whether the status is "1" or "true", with the bytes that follow left. The two texts hold no `*` and
-- have at most 65530 bytes together.
pub get_health_info-send_health_info :
    (info status rest : Text) (cs : Chunks)
    → All (λ c. c ≢ 42) info
    → All (λ c. c ≢ 42) status
    → length info + length status ≤ 65530
    → bytes cs ≡ send_health_info info status ++ rest
    → ((get_health_info cs).1 ≡ some (info, get_bool_by_str status))
      × (bytes (get_health_info cs).0 ≡ rest)
unfolding get_health_info send_health_info binary_write
get_health_info-send_health_info info status rest cs i s fits e =
    let message = get_write_str (info ∷ status ∷ []) in
    let long : length message ≡ length info + (3 + (length status + 3)) =
      unfold get_write_str in
      omega (
        arith,
        length-append info (conn_data_seq ++ (status ++ conn_data_seq)),
        length-append status conn_data_seq,
      ) in
    health_of-Gives (get_content cs) info status rest i s (
      get_content-get_len_bytes message rest cs (omega (arith, long)) (omega (arith, long, fits)) e)
