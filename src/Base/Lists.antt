-- ===== src/Base/Lists.antt =====
-- Lists measured by native numbers.
use Prim.Native.Nat.{ℕ, suc, ◌+◌, ◌≤◌}
use mathlib.Core.Path.{◌≡◌, refl, ap}
use mathlib.Core.Bool.{Bool, cond}
use mathlib.Core.List.{List, [], ◌∷◌, ◌++◌, reverse, reverse-append}
use native.Mathlib.Omega.{arith}

module _ {ℓ} {A : Type ℓ} where
  abbrev pub length : List A → ℕ
  length [] = 0
  length (_ ∷ xs) = suc (length xs)

  pub length-append : (xs ys : List A) → length (xs ++ ys) ≡ length xs + length ys
  length-append [] ys = omega arith
  length-append (x ∷ xs) ys = omega (arith, length-append xs ys)

  -- `[x for x in xs if keep(x)]`
  unfoldable pub select : (A → Bool) → List A → List A
  select keep [] = []
  select keep (x ∷ xs) = let rest = select keep xs in cond (keep x) (x ∷ rest) rest

  pub length-select : (keep : A → Bool) (xs : List A) → length (select keep xs) ≤ length xs
  unfolding select
  length-select keep [] = omega arith
  length-select keep (x ∷ xs) = ground (arith, length-select keep xs)

-- The lemma needs `length-append` at `A`, so it stands in a section of its own.
module _ {ℓ} {A : Type ℓ} where
  pub length-reverse : (xs : List A) → length (reverse xs) ≡ length xs
  length-reverse [] = refl
  length-reverse (x ∷ xs) =
      let step = ap length (reverse-append (x ∷ []) xs) in
      omega (arith, step, length-append (reverse xs) (x ∷ []), length-reverse xs)
