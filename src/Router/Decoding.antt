-- ===== src/Router/Decoding.antt =====
-- src/router.c: `url_decode` gives back what percent encoding made of a text.
use jungle_w8_minisql_server.Prelude.{
  ℕ, zero, suc, ◌+◌, ◌-◌, ◌*◌, ◌/◌, ◌%◌, ◌≤◌, ◌<◌, ◌≡◌, refl, ap, ◌∙◌, Bool, true, ◌&&◌, some, [],
  ◌∷◌, length, Text, arith, ltb, if◌then◌else◌,
}
use jungle_w8_minisql_server.Router.Query.{from_hex, decode_round, decode_from, url_decode}

unfoldable pub hex_digit : ℕ → ℕ
hex_digit d = if ltb d 10 then 48 + d else 55 + d

-- Every byte as `%` and two digits.
unfoldable pub percent_encode : Text → Text
percent_encode [] = []
percent_encode (b ∷ s) = 37 ∷ hex_digit (b / 16) ∷ hex_digit (b % 16) ∷ percent_encode s

-- Whether these are bytes.
unfoldable pub all_bytes : Text → Bool
all_bytes [] = true
all_bytes (b ∷ s) = ltb b 256 && all_bytes s

from_hex-hex_digit : (d : ℕ) → d < 16 → from_hex (hex_digit d) ≡ some d
unfolding from_hex hex_digit
from_hex-hex_digit d h = ground arith

byte_of_digits : (b : ℕ) → (b / 16) * 16 + b % 16 ≡ b
byte_of_digits b = omega arith

decode_digits :
    (h l hi lo : ℕ) (src : Text)
    → from_hex h ≡ some hi
    → from_hex l ≡ some lo
    → decode_round 37 (h ∷ l ∷ src) ≡ (hi * 16 + lo, src)
unfolding decode_round
decode_digits h l hi lo src e f = rw (e, f, decode_round) refl

decode_pair :
    (b : ℕ) (src : Text)
    → b < 256
    → decode_round 37 (hex_digit (b / 16) ∷ hex_digit (b % 16) ∷ src) ≡ (b, src)
decode_pair b src h =
    decode_digits (hex_digit (b / 16)) (hex_digit (b % 16)) (b / 16) (b % 16) src
      (from_hex-hex_digit (b / 16) (omega arith)) (from_hex-hex_digit (b % 16) (omega arith))
    ∙ ap (λ n. (n, src)) (byte_of_digits b)

decode_from-percent_encode :
    (room : ℕ) (s : Text)
    → length s ≤ room
    → all_bytes s ≡ true
    → decode_from room (percent_encode s) ≡ s
unfolding decode_from percent_encode all_bytes
decode_from-percent_encode zero [] h k = refl
decode_from-percent_encode zero (b ∷ s) h k = absurd (omega arith)
decode_from-percent_encode (suc room) [] h k = refl
decode_from-percent_encode (suc room) (b ∷ s) h k =
    ap (λ r. r.0 ∷ decode_from room r.1) (decode_pair b (percent_encode s) (ground arith))
    ∙ ap (λ l. b ∷ l) (decode_from-percent_encode room s (omega arith) (ground arith))

-- A text of bytes, shorter than the output, of which every byte is percent-encoded, is decoded to
-- itself.
pub url_decode-percent_encode :
    (size : ℕ) (s : Text)
    → length s < size
    → all_bytes s ≡ true
    → url_decode size (percent_encode s) ≡ s
unfolding url_decode
url_decode-percent_encode size s h k = decode_from-percent_encode (size - 1) s (omega arith) k
