-- ===== src/Core/Keys/RoundTrip.antt =====
-- What is read back from the files of `~/.offwork`, in offwork/core/token.py and
-- offwork/core/identity.py.
use offwork.Base.{
  ℕ, suc, ◌+◌, ◌*◌, ◌/◌, ◌%◌, ◌≤◌, ◌<◌, String, ◌≡◌, refl, inl, inr, true, false, Option, none,
  some, [], ◌∷◌, ◌++◌, arith, ◌=ℕ◌, ◌==◌, string_eq, length, Bool-cases,
}
use offwork.Core.Bytes.{
  Bytes, codes, hex, digit, fromhex, fromhex-hex, IsBytes, hex_value, hex_pair, is_space,
  hex_value-digit,
}
use Prim.Native.Char.{code}
use offwork.Core.Keys.{
  Text, KeyDir, blank, lstrip, rstrip, strip, is_valid_hex, save_token, valid_token, load_token,
  load_shared_key, whole_key, key_file, resolve_root_token, new_client_id, client_id_from,
  get_client_id, seed_from, get_identity_seed,
}

abbrev Visible : Text → Type 0
Visible [] = Unit
Visible (c ∷ cs) = (blank c ≡ false) × Visible cs

rstrip-Visible : (s : Text) → Visible s → rstrip (s ++ 10 ∷ []) ≡ s
unfolding rstrip blank
rstrip-Visible [] h = refl
rstrip-Visible (c ∷ cs) (h, hs) = rw (h, rstrip-Visible cs hs) refl

strip-Visible : (s : Text) → Visible s → strip (s ++ 10 ∷ []) ≡ s
unfolding lstrip rstrip blank
strip-Visible [] h = refl
strip-Visible (c ∷ cs) (h, hs) = rw h (rstrip-Visible (c ∷ cs) (h, hs))

hex_range : (c n : ℕ) → hex_value c ≡ some n → (48 ≤ c) × (c ≤ 102)
unfolding hex_value
hex_range c n h = ground arith

digits-Visible : (c : ℕ) → 48 ≤ c → c ≤ 102 → blank c ≡ false
unfolding blank
digits-Visible c h k = ground arith

digit-Visible : (n : ℕ) → n < 16 → blank (code (digit n)) ≡ false
digit-Visible n h =
    let (low, high) = hex_range (code (digit n)) n (hex_value-digit n h).0 in
    digits-Visible (code (digit n)) low high

hex-Visible : (bs : Bytes) → IsBytes bs → Visible (codes (hex bs))
unfolding hex codes
hex-Visible [] h = tt
hex-Visible (b ∷ bs) (small, rest) = (
  digit-Visible (b / 16) (omega arith),
  (digit-Visible (b % 16) (omega arith), hex-Visible bs rest),
)

length-hex : (bs : Bytes) → length (codes (hex bs)) ≡ length bs * 2
unfolding hex codes
length-hex [] = refl
length-hex (b ∷ bs) = omega (arith, length-hex bs)

hex_is_valid : (bs : Bytes) → IsBytes bs → is_valid_hex (length bs) (codes (hex bs)) ≡ true
unfolding is_valid_hex
hex_is_valid bs h = rw (fromhex-hex bs h) (ground (arith, length-hex bs))

hex_pair-length :
    (hi lo : Option ℕ) (rest : Option Bytes) (bs : Bytes)
    → hex_pair hi lo rest ≡ some bs
    → (tail : Bytes) × (rest ≡ some tail) × (length bs ≡ suc (length tail))
unfolding hex_pair
hex_pair-length (some hi) (some lo) (some tail) bs h =
    (tail, refl, let e : (16 * hi + lo) ∷ tail ≡ bs = cc h in rw⁻¹ e refl)
hex_pair-length (some hi) (some lo) none bs h = absurd (cc h)
hex_pair-length (some hi) none rest bs h = absurd (cc h)
hex_pair-length none lo rest bs h = absurd (cc h)

fromhex-length : (s : Text) (bs : Bytes) → fromhex s ≡ some bs → length bs * 2 ≤ length s
unfolding fromhex
fromhex-length [] bs h = ground (arith, h)
fromhex-length (c ∷ []) bs h = ground (arith, h)
fromhex-length (c ∷ d ∷ s) bs h = elim (Bool-cases (is_space c)) [
  | inl e ↦ omega (arith, fromhex-length (d ∷ s) bs (rw e at h))
  | inr e ↦
      let (tail, held, one) =
        hex_pair-length (hex_value c) (hex_value d) (fromhex s) bs (rw e at h) in
      omega (arith, one, fromhex-length s tail held)
]

whole_key-length : (key : Option Bytes) (bs : Bytes) → whole_key key ≡ some bs → length bs ≡ 32
whole_key-length none bs h = absurd (cc h)
whole_key-length (some key) bs h = ground (arith, h)

valid_token-length : (s token : Text) → valid_token s ≡ some token → length token ≡ 64
unfolding is_valid_hex
valid_token-length s token h = ground (arith, h)

-- A token that is saved is the root token that is resolved afterwards, if the environment sets none:
-- for 32 bytes in hexadecimal, whatever the directory held, `save_token` succeeds and
-- `resolve_root_token` gives the bytes back in either role.
pub saved_token_is_resolved :
    (bs : Bytes) (role : String) (d : KeyDir)
    → IsBytes bs
    → length bs ≡ 32
    → (d' : KeyDir) × (save_token (codes (hex bs)) d ≡ some d')
      × (resolve_root_token role none d' ≡ some bs)
unfolding save_token resolve_root_token load_token
saved_token_is_resolved bs role d small long =
    let valid : is_valid_hex 32 (codes (hex bs)) ≡ true = rw⁻¹ long (hex_is_valid bs small) in
    (
      record d { token = some (codes (hex bs) ++ 10 ∷ []) },
      rw valid refl,
      rw (strip-Visible (codes (hex bs)) (hex-Visible bs small), valid) (fromhex-hex bs small),
    )

-- A machine keeps its identity: whatever its files held, and whatever bytes a later call draws,
-- `get_client_id` and `get_identity_seed` give what they gave the first time and leave the files as
-- they are, if the first calls drew 16 and 32 bytes.
pub identity_is_stable :
    (id_bytes later seed later_seed : Bytes) (d : KeyDir)
    → IsBytes id_bytes
    → length id_bytes ≡ 16
    → length seed ≡ 32
    → (get_client_id later (get_client_id id_bytes d).1 ≡ get_client_id id_bytes d)
      × (get_identity_seed later_seed (get_identity_seed seed d).1 ≡ get_identity_seed seed d)
unfolding get_client_id get_identity_seed
identity_is_stable id_bytes later seed later_seed d small long whole =
    (client_id_again d.client_id, seed_again d.identity_key)
  where
    read_again :
        (d : KeyDir)
        → client_id_from (some (codes (hex id_bytes) ++ 10 ∷ [])) later d
          ≡ (codes (hex id_bytes), d)
    read_again d =
        let valid : is_valid_hex 16 (codes (hex id_bytes)) ≡ true =
          rw⁻¹ long (hex_is_valid id_bytes small) in
        rw (strip-Visible (codes (hex id_bytes)) (hex-Visible id_bytes small), valid) refl

    client_id_again :
        (file : Option Text)
        → let (cid, d') = client_id_from file id_bytes (record d { client_id = file }) in
          client_id_from d'.client_id later d' ≡ (cid, d')
    client_id_again none = read_again (new_client_id id_bytes d).1
    client_id_again (some content) = elim (Bool-cases (is_valid_hex 16 (strip content))) [
      | inl v ↦ simp v refl
      | inr v ↦ simp v (read_again (new_client_id id_bytes d).1)
    ]

    seed_again :
        (file : Option Bytes)
        → let (s, d') = seed_from file seed (record d { identity_key = file }) in
          seed_from d'.identity_key later_seed d' ≡ (s, d')
    seed_again none = rw whole refl
    seed_again (some held) = elim (Bool-cases (length held =ℕ 32)) [
      | inl v ↦ simp v refl
      | inr v ↦ simp (v, whole) refl
    ]

load_token-length :
    (env file : Option Text) (token : Text) → load_token env file ≡ some token → length token ≡ 64
unfolding load_token
load_token-length (some env_val) file token h = valid_token-length (strip env_val) token h
load_token-length none (some content) token h = valid_token-length (strip content) token h
load_token-length none none token h = absurd (cc h)

-- The root token has at most 32 bytes, wherever it comes from: the environment, the token file or
-- the key of a pairing.
pub root_token_is_bounded :
    (role : String) (env : Option Text) (d : KeyDir) (bs : Bytes)
    → resolve_root_token role env d ≡ some bs
    → length bs ≤ 32
unfolding resolve_root_token load_shared_key
root_token_is_bounded role env d bs h = from (load_token env d.token) refl
  where
    from : (found : Option Text) → load_token env d.token ≡ found → length bs ≤ 32
    from none e = omega (arith, whole_key-length (key_file (role == "client") d) bs (rw e at h))
    from (some token) e =
        omega (arith, load_token-length env d.token token e, fromhex-length token bs (rw e at h))
