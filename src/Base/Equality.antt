-- ===== src/Base/Equality.antt =====
-- Python's `==` and `in`, for every type whose equality can be decided.
use Prim.Native.String.{String}
use mathlib.Core.Path.{◌≡◌, refl, ap}
use mathlib.Core.Logic.{ite, dite}
use mathlib.Core.Bool.{Bool, true, false, ◌||◌, Bool-discrete}
use mathlib.Core.Option.{Option, none, some, none-ne-some, some-ne-none, some-injective}
use mathlib.Core.List.{List, [], ◌∷◌, ◌++◌}
use native.Mathlib.Omega.{arith}
use native.Mathlib.Decide.{ℕ_discrete}
use Prim.Native.Nat.{ℕ}
use text.Mathlib.Text
use text.Mathlib.TextEquality.{eq_iff}

pub record Eq {ℓ} (A : Type ℓ) : Type ℓ where
  pub dec : Discrete A

module _ {ℓ} {A : Type ℓ} ⦃e : Eq A⦄ where
  infix 50 ◌==◌
  abbrev pub ◌==◌ : A → A → Bool
  a == b = ite (e.dec a b) true false

  -- `a in xs`
  abbrev pub contains : List A → A → Bool
  contains [] a = false
  contains (x ∷ xs) a = a == x || contains xs a

  pub contains-append :
      (xs ys : List A) (a : A) → contains (xs ++ ys) a ≡ (contains xs a || contains ys a)
  contains-append [] ys a = refl
  contains-append (x ∷ xs) ys a = ground (arith, contains-append xs ys a)

  pub ==_refl : (a : A) → (a == a) ≡ true
  ==_refl a = ground arith

  option_dec : Discrete (Option A)
  option_dec none none = yes refl
  option_dec none (some b) = no (none-ne-some b)
  option_dec (some a) none = no (some-ne-none a)
  option_dec (some a) (some b) =
      dite (e.dec a b) (λ p. yes (ap some p)) (λ n. no (λ p. n (some-injective a b p)))

  instance unfoldable pub option_eq : Eq (Option A)
  unfolding option_dec
  option_eq = record { dec = option_dec }

-- A pair is a key where the program uses a tuple as one.
pub record Pair {ℓ κ} (A : Type ℓ) (B : Type κ) : Type (ℓ ⊔ κ) where
  pub first : A
  pub second : B

module _ {ℓ κ} {A : Type ℓ} {B : Type κ} ⦃e : Eq A⦄ ⦃f : Eq B⦄ where
  pair_dec : Discrete (Pair A B)
  pair_dec p q =
      dite (e.dec p.first q.first)
        (λ same.
          dite (f.dec p.second q.second)
            (λ same'. yes (λ i. record { first = same i; second = same' i }))
            (λ differ. no (λ path. differ (ap (λ (r : Pair A B). r.second) path))))
        (λ differ. no (λ path. differ (ap (λ (r : Pair A B). r.first) path)))

  instance unfoldable pub pair_eq : Eq (Pair A B)
  unfolding pair_dec
  pair_eq = record { dec = pair_dec }

-- Shut in proofs, where a split on `s == t` yields the equation or its negation.
instance unfoldable pub string_eq : Eq String
string_eq = record {
  dec = λ s t.
      dite (Bool-discrete (Text.◌==◌ s t) true) (λ same. yes ((eq_iff s t).0 same))
        (λ differ. no (λ p. differ ((eq_iff s t).1 p)));
}

instance unfoldable pub nat_eq : Eq ℕ
unfolding ℕ_discrete
nat_eq = record { dec = ℕ_discrete }
