-- ===== src/Core/Bytes.antt =====
-- Byte strings as lists of numbers, with Python's `int.from_bytes`, `int.to_bytes`, `bytes.hex` and
-- `bytes.fromhex`, and what the program takes from hashlib and hmac.
use Prim.Native.Char.{Char, code}
use native.Mathlib.Nat.{pow-suc}
use offwork.Base.{
  ℕ, zero, suc, ◌+◌, ◌-◌, ◌*◌, ◌/◌, ◌%◌, ◌^◌, ◌<◌, String, ◌≡◌, refl, ◌↔◌, Bool, true, false, ◌&&◌,
  ◌||◌, Option, none, some, List, [], ◌∷◌, arith, leb, ◌=ℕ◌, if◌then◌else◌, length,
}

abbrev pub Bytes : Type 0
Bytes = List ℕ

-- hashlib, hmac and the UTF-8 codec. Nothing is assumed of them but that they are functions.
pub record Crypto : Type 0 where
  pub sha512 : Bytes → Bytes
  pub hmac_sha256 : (key message : Bytes) → Bytes
  pub utf8 : String → Bytes

-- `int.from_bytes(bs, "little")`
unfoldable pub from_bytes : Bytes → ℕ
from_bytes [] = 0
from_bytes (b ∷ bs) = b + 256 * from_bytes bs

-- `n.to_bytes(width, "little")`, where `n` fits.
unfoldable pub to_bytes : ℕ → ℕ → Bytes
to_bytes zero n = []
to_bytes (suc width) n = (n % 256) ∷ to_bytes width (n / 256)

pub length-to_bytes : (width n : ℕ) → length (to_bytes width n) ≡ width
unfolding to_bytes
length-to_bytes zero n = refl
length-to_bytes (suc width) n = omega (arith, length-to_bytes width (n / 256))

pub from_bytes-to_bytes : (width n : ℕ) → n < 256 ^ width → from_bytes (to_bytes width n) ≡ n
unfolding from_bytes to_bytes
from_bytes-to_bytes zero n h = omega arith
from_bytes-to_bytes (suc width) n h =
    let small : n / 256 < 256 ^ width = omega (arith, pow-suc 256 width) in
    omega (arith, from_bytes-to_bytes width (n / 256) small)

-- The characters of a text, by their code points. `String` has its own `[]` and `∷`.
unfoldable pub codes : String → List ℕ
codes String.[] = []
codes (String.◌∷◌ c s) = code c ∷ codes s

-- The characters that `bytes.fromhex` skips between two bytes.
unfoldable pub is_space : ℕ → Bool
is_space c = c =ℕ 32 || (leb 9 c && leb c 13)

unfoldable pub hex_value : ℕ → Option ℕ
hex_value c =
    if leb 48 c && leb c 57
    then some (c - 48)
    else if leb 97 c && leb c 102
    then some (c - 87)
    else if leb 65 c && leb c 70
    then some (c - 55)
    else none

unfoldable pub hex_pair : Option ℕ → Option ℕ → Option Bytes → Option Bytes
hex_pair (some hi) (some lo) (some bs) = some ((16 * hi + lo) ∷ bs)
hex_pair _ _ _ = none

-- `bytes.fromhex`; `none` is the ValueError.
unfoldable pub fromhex : List ℕ → Option Bytes
unfolding hex_pair hex_value is_space
fromhex [] = some []
fromhex (c ∷ []) = if is_space c then some [] else none
fromhex (c ∷ d ∷ rest) =
    let skipped = fromhex (d ∷ rest) in
    let pair = hex_pair (hex_value c) (hex_value d) (fromhex rest) in
    if is_space c then skipped else pair

unfoldable pub digit : ℕ → Char
digit zero = "0"
digit (suc zero) = "1"
digit (suc (suc zero)) = "2"
digit (suc (suc (suc zero))) = "3"
digit (suc (suc (suc (suc zero)))) = "4"
digit (suc (suc (suc (suc (suc zero))))) = "5"
digit (suc (suc (suc (suc (suc (suc zero)))))) = "6"
digit (suc (suc (suc (suc (suc (suc (suc zero))))))) = "7"
digit (suc (suc (suc (suc (suc (suc (suc (suc zero)))))))) = "8"
digit (suc (suc (suc (suc (suc (suc (suc (suc (suc zero))))))))) = "9"
digit (suc (suc (suc (suc (suc (suc (suc (suc (suc (suc zero)))))))))) = "a"
digit (suc (suc (suc (suc (suc (suc (suc (suc (suc (suc (suc zero))))))))))) = "b"
digit (suc (suc (suc (suc (suc (suc (suc (suc (suc (suc (suc (suc zero)))))))))))) = "c"
digit (suc (suc (suc (suc (suc (suc (suc (suc (suc (suc (suc (suc (suc zero))))))))))))) = "d"
digit (suc (suc (suc (suc (suc (suc (suc (suc (suc (suc (suc (suc (suc (suc zero)))))))))))))) = "e"
digit (suc (suc (suc (suc (suc (suc (suc (suc (suc (suc (suc (suc (suc (suc (suc n))))))))))))))) =
    "f"

-- `bs.hex()`
unfoldable pub hex : Bytes → String
unfolding digit
hex [] = ""
hex (b ∷ bs) = String.◌∷◌ (digit (b / 16)) (String.◌∷◌ (digit (b % 16)) (hex bs))

abbrev pub IsBytes : Bytes → Type 0
IsBytes [] = Unit
IsBytes (b ∷ bs) = (b < 256) × IsBytes bs

pub hex_value-digit :
    (n : ℕ) → n < 16 → (hex_value (code (digit n)) ≡ some n) × (is_space (code (digit n)) ≡ false)
unfolding hex_value digit is_space
hex_value-digit zero h = (refl, refl)
hex_value-digit (suc zero) h = (refl, refl)
hex_value-digit (suc (suc zero)) h = (refl, refl)
hex_value-digit (suc (suc (suc zero))) h = (refl, refl)
hex_value-digit (suc (suc (suc (suc zero)))) h = (refl, refl)
hex_value-digit (suc (suc (suc (suc (suc zero))))) h = (refl, refl)
hex_value-digit (suc (suc (suc (suc (suc (suc zero)))))) h = (refl, refl)
hex_value-digit (suc (suc (suc (suc (suc (suc (suc zero))))))) h = (refl, refl)
hex_value-digit (suc (suc (suc (suc (suc (suc (suc (suc zero)))))))) h = (refl, refl)
hex_value-digit (suc (suc (suc (suc (suc (suc (suc (suc (suc zero))))))))) h = (refl, refl)
hex_value-digit (suc (suc (suc (suc (suc (suc (suc (suc (suc (suc zero)))))))))) h = (refl, refl)
hex_value-digit (suc (suc (suc (suc (suc (suc (suc (suc (suc (suc (suc zero))))))))))) h =
    (refl, refl)
hex_value-digit (suc (suc (suc (suc (suc (suc (suc (suc (suc (suc (suc (suc zero)))))))))))) h =
    (refl, refl)
hex_value-digit (suc (suc (suc (suc (suc (suc (suc (suc (suc (suc (suc (suc (suc zero)))))))))))))
      h =
    (refl, refl)
hex_value-digit
      (suc (suc (suc (suc (suc (suc (suc (suc (suc (suc (suc (suc (suc (suc zero)))))))))))))) h =
    (refl, refl)
hex_value-digit
      (suc (suc (suc (suc (suc (suc (suc (suc (suc (suc (suc (suc (suc (suc (suc zero)))))))))))))))
      h =
    (refl, refl)
hex_value-digit
      (suc
        (suc (suc (suc (suc (suc (suc (suc (suc (suc (suc (suc (suc (suc (suc (suc n))))))))))))))))
      h =
    absurd (omega arith)

-- Reading the hexadecimal text of a byte string gives the byte string.
pub fromhex-hex : (bs : Bytes) → IsBytes bs → fromhex (codes (hex bs)) ≡ some bs
unfolding fromhex hex codes
fromhex-hex [] h = refl
fromhex-hex (b ∷ bs) (small, rest) = ground (
  arith,
  hex_value-digit (b / 16) (omega arith),
  hex_value-digit (b % 16) (omega arith),
  fromhex-hex bs rest,
)

pub digit_ascii : (n : ℕ) → leb (code (digit n)) 127 ≡ true
unfolding digit
digit_ascii zero = refl
digit_ascii (suc zero) = refl
digit_ascii (suc (suc zero)) = refl
digit_ascii (suc (suc (suc zero))) = refl
digit_ascii (suc (suc (suc (suc zero)))) = refl
digit_ascii (suc (suc (suc (suc (suc zero))))) = refl
digit_ascii (suc (suc (suc (suc (suc (suc zero)))))) = refl
digit_ascii (suc (suc (suc (suc (suc (suc (suc zero))))))) = refl
digit_ascii (suc (suc (suc (suc (suc (suc (suc (suc zero)))))))) = refl
digit_ascii (suc (suc (suc (suc (suc (suc (suc (suc (suc zero))))))))) = refl
digit_ascii (suc (suc (suc (suc (suc (suc (suc (suc (suc (suc zero)))))))))) = refl
digit_ascii (suc (suc (suc (suc (suc (suc (suc (suc (suc (suc (suc zero))))))))))) = refl
digit_ascii (suc (suc (suc (suc (suc (suc (suc (suc (suc (suc (suc (suc zero)))))))))))) = refl
digit_ascii (suc (suc (suc (suc (suc (suc (suc (suc (suc (suc (suc (suc (suc zero))))))))))))) =
    refl
digit_ascii
      (suc (suc (suc (suc (suc (suc (suc (suc (suc (suc (suc (suc (suc (suc zero)))))))))))))) =
    refl
digit_ascii
      (suc (suc (suc (suc (suc (suc (suc (suc (suc (suc (suc (suc (suc (suc (suc n))))))))))))))) =
    refl

-- `a == b` of byte strings, and `hmac.compare_digest`, which has the same result.
unfoldable pub same_bytes : Bytes → Bytes → Bool
same_bytes [] [] = true
same_bytes (a ∷ xs) (b ∷ ys) = a =ℕ b && same_bytes xs ys
same_bytes _ _ = false

pub same_bytes_iff : (xs ys : Bytes) → (same_bytes xs ys ≡ true) ↔ (xs ≡ ys)
unfolding same_bytes
same_bytes_iff [] [] = (λ _. refl, λ _. refl)
same_bytes_iff [] (b ∷ ys) = (λ h. absurd (cc), λ h. absurd (cc))
same_bytes_iff (a ∷ xs) [] = (λ h. absurd (cc), λ h. absurd (cc))
same_bytes_iff (a ∷ xs) (b ∷ ys) = ground (arith, same_bytes_iff xs ys)
