-- ===== src/Choose/Hex.antt =====
-- The hexadecimal arguments of the chooser can be read back.
use xdm.Base.{
  ℕ, ◌+◌, ◌-◌, ◌*◌, ◌/◌, ◌%◌, ◌<◌, ◌≤◌, false, [], ◌∷◌, ltb, if◌then◌else◌, some, Bytes, length,
  All, ◌≡◌, refl, arith,
}
use xdm.Choose.{hex_char, hex, format_bytes}

-- The value of a hexadecimal digit, and the bytes of pairs of digits.
abbrev pub digit_value : ℕ → ℕ
digit_value c = if ltb c b'a' then c - b'0' else c - b'a' + 10

abbrev pub read_hex : Bytes → Bytes
read_hex (h ∷ l ∷ rest) = (digit_value h * 16 + digit_value l) ∷ read_hex rest
read_hex _ = []

digit_value-hex_char : (n : ℕ) → n < 16 → digit_value (hex_char n) ≡ n
digit_value-hex_char n h = ground arith

length-hex : (bs : Bytes) → length (hex bs) ≡ length bs * 2
length-hex [] = refl
length-hex (b ∷ bs) = omega (arith, length-hex bs)

two_digits : (b : ℕ) → b < 256 → (b / 16) % 16 * 16 + b % 16 ≡ b
two_digits b h = omega arith

read_hex-hex : (bs : Bytes) → All (λ b. b < 256) bs → read_hex (hex bs) ≡ bs
read_hex-hex [] h = refl
read_hex-hex (b ∷ bs) (h, hs) =
    rw
      (
        digit_value-hex_char ((b / 16) % 16) (omega arith),
        digit_value-hex_char (b % 16) (omega arith),
        two_digits b h,
        read_hex-hex bs hs,
      )
      refl

-- What FormatBytes writes fits the buffer with its NUL, and gives the bytes back when it is read as
-- pairs of hexadecimal digits.
pub format_bytes-read_hex :
    (bytes : Bytes) (buflen : ℕ)
    → All (λ b. b < 256) bytes
    → length bytes * 2 < buflen
    → (out : Bytes) × (format_bytes bytes buflen ≡ some out)
      × (length out + 1 ≤ buflen)
      × (read_hex out ≡ bytes)
unfolding format_bytes
format_bytes-read_hex bytes buflen h lt =
    let f : ltb buflen (length bytes * 2 + 1) ≡ false = ground arith in
    rw f (hex bytes, refl, omega (arith, length-hex bytes), read_hex-hex bytes h)
