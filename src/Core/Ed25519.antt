-- ===== src/Core/Ed25519.antt =====
-- offwork/core/ed25519.py: RFC 8032 signatures over native numbers. SHA-512 is a parameter.
pub mod Ranges
use offwork.Base.{
  ◌>>=◌, ℕ, zero, suc, ◌+◌, ◌-◌, ◌*◌, ◌/◌, ◌%◌, ◌^◌, Bool, true, false, not, ◌&&◌, ◌||◌, Option,
  none, some, List, [], ◌∷◌, ◌++◌, leb, ltb, ◌=ℕ◌, if◌then◌else◌, length,
}
use offwork.Core.Bytes.{Bytes, Crypto, from_bytes, to_bytes, same_bytes}

-- `_P` and `_L`.
pub field_prime : ℕ
field_prime = 2 ^ 255 - 19

pub group_order : ℕ
group_order = 2 ^ 252 + 27742317777372353535851937790883648493

-- `a - b` modulo `_P` for a `b` below it. Python's `%` takes the negative difference.
unfoldable pub sub_mod : ℕ → ℕ → ℕ
unfolding field_prime
sub_mod a b = (a + field_prime - b) % field_prime

-- Python's `pow(a, e, _P)`, by squaring. The fuel bounds the bits of `e`.
unfoldable pub pow_loop : ℕ → ℕ → ℕ → ℕ
unfolding field_prime
pow_loop zero a e = 1
pow_loop (suc fuel) a e =
    let half = pow_loop fuel a (e / 2) in
    let square = half * half % field_prime in
    if e =ℕ 0 then 1 else if e % 2 =ℕ 1 then square * a % field_prime else square

unfoldable pub pow_mod : ℕ → ℕ → ℕ
unfolding pow_loop
pow_mod a e = pow_loop 256 a e

-- `_D = -121665 * pow(121666, _P - 2, _P) % _P` and `_I`.
pub curve_d : ℕ
unfolding pow_mod sub_mod
curve_d = sub_mod 0 (121665 * pow_mod 121666 (field_prime - 2) % field_prime)

pub sqrt_minus_one : ℕ
unfolding pow_mod
sqrt_minus_one = pow_mod 2 ((field_prime - 1) / 4)

unfoldable pub x_recover : ℕ → ℕ
unfolding pow_mod sub_mod curve_d sqrt_minus_one
x_recover y =
    let xx = sub_mod (y * y) 1 * pow_mod (curve_d * y * y + 1) (field_prime - 2) in
    let x = pow_mod xx ((field_prime + 3) / 8) in
    let x' =
      if sub_mod (x * x % field_prime) (xx % field_prime) =ℕ 0
      then x
      else x * sqrt_minus_one % field_prime in
    if x' % 2 =ℕ 0 then x' else field_prime - x'

-- Extended coordinates.
pub record Point : Type 0 where
  pub x : ℕ
  pub y : ℕ
  pub z : ℕ
  pub t : ℕ

abbrev pub neutral : Point
neutral = record { x = 0; y = 1; z = 1; t = 0 }

pub base_point : Point
unfolding x_recover
base_point =
    let by = 4 * pow_mod 5 (field_prime - 2) % field_prime in
    let bx = x_recover by in
    record { x = bx % field_prime; y = by % field_prime; z = 1; t = bx * by % field_prime }

unfoldable pub point_add : Point → Point → Point
unfolding sub_mod curve_d
point_add p q =
    let a = sub_mod p.y (p.x % field_prime) * sub_mod q.y (q.x % field_prime) % field_prime in
    let b = (p.y + p.x) * (q.y + q.x) % field_prime in
    let c = 2 * p.t * q.t * curve_d % field_prime in
    let d = 2 * p.z * q.z % field_prime in
    let e = sub_mod b a in
    let f = sub_mod d c in
    let g = d + c in
    let h = b + a in
    record {
      x = e * f % field_prime;
      y = g * h % field_prime;
      z = f * g % field_prime;
      t = e * h % field_prime;
    }

-- `_scalar_mul`: double and add. The fuel bounds the bits of `e`.
unfoldable pub scalar_loop : ℕ → Point → ℕ → Point
unfolding point_add
scalar_loop zero p e = neutral
scalar_loop (suc fuel) p e =
    let half = scalar_loop fuel p (e / 2) in
    let double = point_add half half in
    if e =ℕ 0 then neutral else if e % 2 =ℕ 1 then point_add double p else double

unfoldable pub scalar_mul : Point → ℕ → Point
unfolding scalar_loop
scalar_mul p e = scalar_loop 256 p e

-- `y | ((x & 1) << 255)`: the sum, since `y` is below `_P` and so below 2 ** 255.
unfoldable pub encoded : Point → ℕ
unfolding pow_mod
encoded p =
    let zinv = pow_mod p.z (field_prime - 2) in
    let x = p.x * zinv % field_prime in let y = p.y * zinv % field_prime in y + x % 2 * 2 ^ 255

-- `n.to_bytes(32, "little")`; `none` is the OverflowError of a number that does not fit.
unfoldable pub to_bytes_32 : ℕ → Option Bytes
unfolding to_bytes
to_bytes_32 n = if ltb n (256 ^ 32) then some (to_bytes 32 n) else none

unfoldable pub encode_point : Point → Option Bytes
unfolding encoded to_bytes_32
encode_point p = to_bytes_32 (encoded p)

unfoldable pub is_on_curve : Point → Bool
unfolding pow_mod sub_mod curve_d
is_on_curve p =
    let zinv = pow_mod p.z (field_prime - 2) in
    let xn = p.x * zinv % field_prime in
    let yn = p.y * zinv % field_prime in
    sub_mod (yn * yn) (xn * xn % field_prime) =ℕ (1 + curve_d * xn * xn * yn * yn) % field_prime

unfoldable pub decode_point : Bytes → Option Point
unfolding from_bytes x_recover is_on_curve
decode_point s =
    let n = from_bytes s in
    let sign = n / 2 ^ 255 % 2 in
    let y = n % 2 ^ 255 in
    let x = x_recover y in
    let x' = if x % 2 =ℕ sign then x else field_prime - x in
    let p : Point = record { x = x'; y = y; z = 1; t = x' * y % field_prime } in
    if not (length s =ℕ 32)
    then none
    else if leb field_prime y
    then none
    else if is_on_curve p
    then some p
    else none

-- `s[:n]` and `s[n:]`
unfoldable pub take : ℕ → Bytes → Bytes
take zero s = []
take (suc n) [] = []
take (suc n) (b ∷ s) = b ∷ take n s

unfoldable pub drop : ℕ → Bytes → Bytes
drop zero s = s
drop (suc n) [] = []
drop (suc n) (b ∷ s) = drop n s

-- `a[i] = f(a[i])` of a bytearray; `none` is the IndexError.
unfoldable pub update_at : ℕ → (ℕ → ℕ) → Bytes → Option Bytes
update_at i f [] = none
update_at zero f (b ∷ bs) = some (f b ∷ bs)
update_at (suc i) f (b ∷ bs) = do rest ← update_at i f bs; some (b ∷ rest)

-- `b & 248`, `b & 127` and `b | 64` of a byte.
abbrev pub and_248 : ℕ → ℕ
and_248 b = b / 8 * 8

abbrev pub and_127 : ℕ → ℕ
and_127 b = b % 128

abbrev pub or_64 : ℕ → ℕ
or_64 b = if b / 64 % 2 =ℕ 1 then b else b + 64

unfoldable pub clamp : Bytes → Option ℕ
unfolding from_bytes take update_at
clamp h = do
  a₁ ← update_at 0 and_248 (take 32 h)
  a₂ ← update_at 31 and_127 a₁
  a₃ ← update_at 31 or_64 a₂
  some (from_bytes a₃)

module _ (c : Crypto) where
  unfoldable pub sha512_int : Bytes → ℕ
  sha512_int bs = from_bytes (c.sha512 bs)

  unfoldable pub secret_scalar : Bytes → Option ℕ
  secret_scalar seed = clamp (c.sha512 seed)

  -- `none` is the ValueError for a seed of another length, or an error of what it calls.
  unfoldable pub seed_to_public : Bytes → Option Bytes
  seed_to_public seed =
      let public = secret_scalar seed >>= (λ a. encode_point (scalar_mul base_point a)) in
      if length seed =ℕ 32 then public else none

  -- `r`, from the second half of the hash of the seed.
  unfoldable pub nonce_scalar : Bytes → Bytes → ℕ
  nonce_scalar message seed = sha512_int (drop 32 (c.sha512 seed) ++ message) % group_order

  -- `k`, the challenge.
  unfoldable pub challenge : Bytes → Bytes → Bytes → ℕ
  challenge r_enc public message = sha512_int (r_enc ++ (public ++ message)) % group_order

  unfoldable pub signature_of : Bytes → Bytes → Option Bytes
  signature_of message seed = do
    a ← secret_scalar seed
    public ← encode_point (scalar_mul base_point a)
    r_enc ← encode_point (scalar_mul base_point (nonce_scalar message seed))
    s ← to_bytes_32 ((nonce_scalar message seed + challenge r_enc public message * a) % group_order)
    some (r_enc ++ s)

  unfoldable pub sign : Bytes → Bytes → Option Bytes
  sign message seed =
      let signature = signature_of message seed in if length seed =ℕ 32 then signature else none

  -- `encode_point` always gives bytes (Ed25519/Ranges), so the last case does not arise.
  abbrev pub same_encoding : Option Bytes → Option Bytes → Bool
  same_encoding (some a) (some b) = same_bytes a b
  same_encoding _ _ = false

  -- The equation [s]B = R + [k]A that a signature has to satisfy.
  unfoldable pub check_equation : Bytes → Bytes → Bytes → Point → Point → ℕ → Bool
  check_equation message signature public_key r a s =
      let k = challenge (take 32 signature) public_key message in
      let r_ka = point_add r (scalar_mul a k) in
      same_encoding (encode_point (scalar_mul base_point s)) (encode_point r_ka)

  unfoldable pub verify_points : Bytes → Bytes → Bytes → Option Point → Option Point → Bool
  verify_points message signature public_key none a = false
  verify_points message signature public_key (some r) none = false
  verify_points message signature public_key (some r) (some a) =
      let s = from_bytes (drop 32 signature) in
      if leb group_order s then false else check_equation message signature public_key r a s

  unfoldable pub verify : Bytes → Bytes → Bytes → Bool
  verify message signature public_key =
      if not (length signature =ℕ 64) || not (length public_key =ℕ 32)
      then false
      else verify_points message signature public_key (decode_point (take 32 signature))
          (decode_point public_key)
