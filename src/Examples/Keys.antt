-- ===== src/Examples/Keys.antt =====
-- A token and an identity of bytes that are all 1 or 2.
use offwork.Base.{ℕ, ◌<◌, ◌≡◌, refl, string_eq, some, none, [], ◌∷◌, arith}
use offwork.Core.Bytes.{Bytes, IsBytes, codes, hex}
use offwork.Core.Keys.{KeyDir, save_token, resolve_root_token, load_token, load_shared_key}
use offwork.Core.Keys.RoundTrip.{saved_token_is_resolved}

abbrev four : ℕ → Bytes → Bytes
four n bs = n ∷ n ∷ n ∷ n ∷ bs

abbrev sixteen : Bytes
sixteen = four 1 (four 1 (four 1 (four 1 [])))

abbrev secret : Bytes
secret = four 2 (four 2 (four 2 (four 2 sixteen)))

abbrev new_dir : KeyDir
new_dir = record {
  token = none;
  client_key = some secret;
  worker_key = none;
  client_id = none;
  identity_key = none;
}

four_small : (n : ℕ) (bs : Bytes) → n < 256 → IsBytes bs → IsBytes (four n bs)
four_small n bs h k = (h, (h, (h, (h, k))))

sixteen_small : IsBytes sixteen
sixteen_small = four_small 1 (four 1 (four 1 (four 1 []))) (omega arith) (
    four_small 1 (four 1 (four 1 [])) (omega arith)
      (four_small 1 (four 1 []) (omega arith) (four_small 1 [] (omega arith) tt)))

secret_small : IsBytes secret
secret_small = four_small 2 (four 2 (four 2 (four 2 sixteen))) (omega arith) (
    four_small 2 (four 2 (four 2 sixteen)) (omega arith) (
      four_small 2 (four 2 sixteen) (omega arith)
        (four_small 2 sixteen (omega arith) sixteen_small)))

saved_token_is_resolved_example :
    (d' : KeyDir) × (save_token (codes (hex secret)) new_dir ≡ some d')
    × (resolve_root_token "client" none d' ≡ some secret)
saved_token_is_resolved_example = saved_token_is_resolved secret "client" new_dir secret_small refl

paired_key : resolve_root_token "client" none new_dir ≡ some secret
unfolding resolve_root_token load_token load_shared_key string_eq
paired_key = refl
