-- ===== src/Core/Ed25519/Ranges.antt =====
-- Lengths and ranges of the keys and signatures of offwork/core/ed25519.py.
use native.Mathlib.Nat.{pow-suc}
use offwork.Base.{
  ℕ, zero, suc, ◌+◌, ◌*◌, ◌-◌, ◌%◌, ◌^◌, ◌≤◌, ◌<◌, ◌≡◌, ◌≢◌, refl, true, Option, none, some, [],
  ◌∷◌, ◌++◌, arith, length, length-append,
}
use offwork.Core.Bytes.{
  Bytes, IsBytes, Crypto, from_bytes, to_bytes, length-to_bytes, from_bytes-to_bytes,
}
use offwork.Core.Ed25519.{
  Point, pow_mod, base_point, scalar_mul, field_prime, group_order, clamp, and_248, and_127, or_64,
  update_at, take, drop, to_bytes_32, encode_point, encoded, secret_scalar, nonce_scalar, challenge,
  sign, signature_of, verify, verify_points, decode_point,
}

-- What clearing bit 7 and setting bit 6 of the top byte makes of the number of `n + 1` bytes.
clamp_top :
    (n : ℕ) (bs : Bytes)
    → length bs ≡ suc n
    → IsBytes bs
    → (cs : Bytes) × (ds : Bytes) × (update_at n and_127 bs ≡ some cs)
      × (update_at n or_64 cs ≡ some ds)
      × (64 * 256 ^ n ≤ from_bytes ds)
      × (from_bytes ds < 128 * 256 ^ n)
unfolding update_at from_bytes
clamp_top n [] h small = absurd (omega arith)
clamp_top zero (b ∷ []) h small =
    (and_127 b ∷ [], or_64 (and_127 b) ∷ [], refl, refl, ground arith, ground arith)
clamp_top zero (b ∷ b' ∷ bs) h small = absurd (omega arith)
clamp_top (suc n) (b ∷ bs) h (byte, small) =
    let (cs, ds, cleared, set, low, high) = clamp_top n bs (omega arith) small in
    (
      b ∷ cs,
      b ∷ ds,
      rw cleared refl,
      rw set refl,
      omega (arith, low, pow-suc 256 n),
      omega (arith, high, byte, pow-suc 256 n),
    )

take-IsBytes :
    (n : ℕ) (bs : Bytes)
    → n ≤ length bs
    → IsBytes bs
    → (length (take n bs) ≡ n) × IsBytes (take n bs)
unfolding take
take-IsBytes zero bs h small = (refl, tt)
take-IsBytes (suc n) [] h small = absurd (omega arith)
take-IsBytes (suc n) (b ∷ bs) h (byte, small) =
    let (counted, rest) = take-IsBytes n bs (omega arith) small in
    (omega (arith, counted), (byte, rest))

-- The secret scalar of at least 32 bytes is a multiple of the cofactor 8 with its top bit at 2 ** 254.
pub clamp_range :
    (h : Bytes)
    → 32 ≤ length h
    → IsBytes h
    → (n : ℕ) × (clamp h ≡ some n) × (n % 8 ≡ 0) × (2 ^ 254 ≤ n) × (n < 2 ^ 255)
unfolding clamp update_at from_bytes take
clamp_range [] long small = absurd (omega arith)
clamp_range (b ∷ bs) long (byte, small) =
    let (counted, bytes) = take-IsBytes 31 bs (omega arith) small in
    let (cs, ds, cleared, set, low, high) = clamp_top 30 (take 31 bs) counted bytes in
    (
      and_248 b + 256 * from_bytes ds,
      rw (cleared, set) refl,
      omega arith,
      omega (arith, low),
      omega (arith, high, byte),
    )

to_bytes_32-fits : (n : ℕ) → n < 256 ^ 32 → to_bytes_32 n ≡ some (to_bytes 32 n)
unfolding to_bytes_32
to_bytes_32-fits n small = ground arith

with_sign : (x y : ℕ) → y % field_prime + x % 2 * 2 ^ 255 < 256 ^ 32
unfolding field_prime
with_sign x y = omega arith

encoded-lt : (p : Point) → encoded p < 256 ^ 32
unfolding encoded
encoded-lt p =
    let zinv = pow_mod p.z (field_prime - 2) in with_sign (p.x * zinv % field_prime) (p.y * zinv)

-- A point always fits into 32 bytes.
encode_point-fits : (p : Point) → encode_point p ≡ some (to_bytes 32 (encoded p))
unfolding encode_point
encode_point-fits p = to_bytes_32-fits (encoded p) (encoded-lt p)

drop-append : (n : ℕ) (xs ys : Bytes) → length xs ≡ n → drop n (xs ++ ys) ≡ ys
unfolding drop
drop-append zero [] ys h = refl
drop-append zero (x ∷ xs) ys h = absurd (omega arith)
drop-append (suc n) [] ys h = absurd (omega arith)
drop-append (suc n) (x ∷ xs) ys h = drop-append n xs ys (omega arith)

halves :
    (r : Point) (s : ℕ)
    → s < group_order
    → (length (to_bytes 32 (encoded r) ++ to_bytes 32 s) ≡ 64)
      × (from_bytes (drop 32 (to_bytes 32 (encoded r) ++ to_bytes 32 s)) < group_order)
halves r s small = (
  omega (
    arith,
    length-append (to_bytes 32 (encoded r)) (to_bytes 32 s),
    length-to_bytes 32 (encoded r),
    length-to_bytes 32 s,
  ),
  rw (drop-append 32 (to_bytes 32 (encoded r)) (to_bytes 32 s) (length-to_bytes 32 (encoded r)))
      (rw (from_bytes-to_bytes 32 s (unfold group_order in omega arith)) small),
)

below_order : (n : ℕ) → n % group_order < group_order
unfolding group_order
below_order n = omega arith

scalar_fits : (n : ℕ) → n < group_order → to_bytes_32 n ≡ some (to_bytes 32 n)
unfolding group_order
scalar_fits n small = to_bytes_32-fits n (omega arith)

-- SHA-512 gives 64 bytes.
abbrev pub IsSha512 : Crypto → Type 0
IsSha512 c = (bs : Bytes) → (length (c.sha512 bs) ≡ 64) × IsBytes (c.sha512 bs)

module _ (c : Crypto) where
  signature_of_lem :
      (message seed : Bytes)
      → IsSha512 c
      → (r : Point) × (s : ℕ) × (s < group_order)
        × (signature_of c message seed ≡ some (to_bytes 32 (encoded r) ++ to_bytes 32 s))
  unfolding signature_of secret_scalar
  signature_of_lem message seed hashes =
      let (counted, bytes) = hashes seed in
      let (a, clamped, _, _, _) = clamp_range (c.sha512 seed) (omega (arith, counted)) bytes in
      let r = scalar_mul base_point (nonce_scalar c message seed) in
      let public = to_bytes 32 (encoded (scalar_mul base_point a)) in
      let k = challenge c (to_bytes 32 (encoded r)) public message in
      let s = (nonce_scalar c message seed + k * a) % group_order in
      let small : s < group_order = below_order (nonce_scalar c message seed + k * a) in
      (
        r,
        s,
        small,
        rw
            (
              clamped,
              encode_point-fits (scalar_mul base_point a),
              encode_point-fits r,
              scalar_fits s small,
            )
            refl,
      )

  -- With a hash that gives 64 bytes, a seed of 32 bytes signs every message, without an overflow, and
  -- the signature has 64 bytes, of which the last 32 encode a number below the group order.
  pub sign_canonical :
      (message seed : Bytes)
      → IsSha512 c
      → length seed ≡ 32
      → (signature : Bytes) × (sign c message seed ≡ some signature)
        × (length signature ≡ 64)
        × (from_bytes (drop 32 signature) < group_order)
  unfolding sign
  sign_canonical message seed hashes h =
      let (r, s, small, signed) = signature_of_lem message seed hashes in
      let (counted, below) = halves r s small in
      (to_bytes 32 (encoded r) ++ to_bytes 32 s, rw (signed, h) refl, counted, below)

  verify_points_strict :
      (message signature public_key : Bytes) (r a : Option Point)
      → verify_points c message signature public_key r a ≡ true
      → (from_bytes (drop 32 signature) < group_order) × (r ≢ none) × (a ≢ none)
  unfolding verify_points
  verify_points_strict message signature public_key none a h = cc
  verify_points_strict message signature public_key (some r) none h = cc
  verify_points_strict message signature public_key (some r) (some a) h = ground arith

  -- An accepted signature has 64 bytes and encodes a number below the group order, so no second
  -- encoding of that number is accepted; its first half and the key decode to points.
  pub verify_strict :
      (message signature public_key : Bytes)
      → verify c message signature public_key ≡ true
      → (length signature ≡ 64)
        × (length public_key ≡ 32)
        × (from_bytes (drop 32 signature) < group_order)
        × (decode_point (take 32 signature) ≢ none)
        × (decode_point public_key ≢ none)
  unfolding verify
  verify_strict message signature public_key h = ground (
    arith,
    verify_points_strict message signature public_key (decode_point (take 32 signature))
        (decode_point public_key),
  )
