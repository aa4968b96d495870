-- ===== src/Texts/Examples.antt =====
-- The text "a,b" and the bytes of "a&b".
use rclabs_api.Prelude.{◌≡◌, refl, [], ◌∷◌, arith}
use rclabs_api.Texts.{split, split_at_most, join, url_encode, url_decode}
use rclabs_api.Texts.Splitting.{join-split}
use rclabs_api.Texts.Escapes.{url_decode-url_encode}

-- "%+1" is decoded to the byte 1.
signed_escape : url_decode (37 ∷ 43 ∷ 49 ∷ []) ≡ 1 ∷ []
unfolding url_decode
signed_escape = refl

join-split_example :
    (join (split (97 ∷ 44 ∷ 98 ∷ []) 44) (44 ∷ []) ≡ 97 ∷ 44 ∷ 98 ∷ [])
    × (join (split_at_most (97 ∷ 44 ∷ 98 ∷ []) 44 2) (44 ∷ []) ≡ 97 ∷ 44 ∷ 98 ∷ [])
join-split_example = join-split (97 ∷ 44 ∷ 98 ∷ []) 44 2 (omega arith)

url_decode-url_encode_example : url_decode (url_encode (97 ∷ 38 ∷ 98 ∷ [])) ≡ 97 ∷ 38 ∷ 98 ∷ []
url_decode-url_encode_example =
    url_decode-url_encode (97 ∷ 38 ∷ 98 ∷ []) (omega arith, (omega arith, (omega arith, tt)))
