-- ===== src/Texts/Escapes.antt =====
-- Encoding a text for a URL and decoding it again, in src/string_utils.cpp.
use rclabs_api.Prelude.{
  ◌≡◌, refl, ap, ◌∙◌, ℕ, ◌+◌, ◌*◌, ◌/◌, ◌%◌, ◌<◌, ◌==◌, true, false, some, List, [], ◌∷◌, arith,
  Bool-cases, inl, inr,
}
use rclabs_api.Texts.{is_safe, hex_digit, url_encode, hex_value, two_characters, url_decode}

-- Every element is a byte.
abbrev pub AreBytes : List ℕ → Type 0
AreBytes [] = Unit
AreBytes (c ∷ s) = (c < 256) × AreBytes s

two_characters-digits :
    (high low : ℕ)
    → high < 16
    → low < 16
    → two_characters (hex_digit high) (hex_digit low) ≡ some (16 * high + low)
unfolding two_characters hex_digit hex_value
two_characters-digits high low h l = ground arith

url_decode-plain :
    (c : ℕ) (s : List ℕ)
    → (c == 37) ≡ false
    → (c == 43) ≡ false
    → url_decode (c ∷ s) ≡ c ∷ url_decode s
unfolding url_decode
url_decode-plain c [] h k = ground arith
url_decode-plain c (a ∷ []) h k = ground arith
url_decode-plain c (a ∷ b ∷ s) h k = ground arith

url_decode-escape :
    (c : ℕ) (s : List ℕ)
    → c < 256
    → url_decode (37 ∷ hex_digit (c / 16) ∷ hex_digit (c % 16) ∷ s) ≡ c ∷ url_decode s
unfolding url_decode
url_decode-escape c s h =
    rw (two_characters-digits (c / 16) (c % 16) (omega (arith, h)) (omega arith))
      (ap (λ n. n ∷ url_decode s) (omega arith))

safe-plain : (c : ℕ) → is_safe c ≡ true → ((c == 37) ≡ false) × ((c == 43) ≡ false)
unfolding is_safe
safe-plain c h = (ground arith, ground arith)

-- Whatever bytes a text has, its encoding for a URL is decoded to the text.
pub url_decode-url_encode : (s : List ℕ) → AreBytes s → url_decode (url_encode s) ≡ s
unfolding url_encode url_decode
url_decode-url_encode [] h = refl
url_decode-url_encode (c ∷ s) (byte, h) = elim (Bool-cases (is_safe c)) [
  | inl safe ↦ rw safe (
      url_decode-plain c (url_encode s) (safe-plain c safe).0 (safe-plain c safe).1
      ∙ ap (λ t. c ∷ t) (url_decode-url_encode s h))
  | inr other ↦
      rw other
        (url_decode-escape c (url_encode s) byte ∙ ap (λ t. c ∷ t) (url_decode-url_encode s h))
]
