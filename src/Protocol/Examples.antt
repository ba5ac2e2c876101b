-- ===== src/Protocol/Examples.antt =====
-- The cells of a small map.
use patrolbot_dashboard.Base.{◌+ℤ◌, pos, negsuc, List, [], ◌∷◌, ◌≡◌, refl}
use patrolbot_dashboard.Protocol.Rle.{Run, encode_rle, decode_rle}
use patrolbot_dashboard.Protocol.RoundTrip.{decode_rle-encode_rle, encode_rle-decode_rle}
use patrolbot_dashboard.Base.{ℤ}

abbrev cells : List ℤ
cells = negsuc 0 ∷ negsuc 0 ∷ pos 100 ∷ pos 0 ∷ []

abbrev runs : List Run
runs = record { value = pos 0; count = pos 3 } ∷ record { value = pos 100; count = pos 1 } ∷ []

decode_rle-encode_rle_example : decode_rle (encode_rle cells) ≡ cells
decode_rle-encode_rle_example = decode_rle-encode_rle cells

encode_rle-decode_rle_example : encode_rle (decode_rle runs) ≡ runs
encode_rle-decode_rle_example = encode_rle-decode_rle runs ((2, refl), refl, ((0, refl), refl, tt))

encode_test :
    encode_rle (pos 0 ∷ pos 0 ∷ negsuc 0 ∷ pos 0 ∷ [])
    ≡ record { value = pos 0; count = pos 2 }
      ∷ record { value = negsuc 0; count = pos 1 }
      ∷ record { value = pos 0; count = pos 1 }
      ∷ []
unfolding encode_rle ◌+ℤ◌
encode_test = refl
