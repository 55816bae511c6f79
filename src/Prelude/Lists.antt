-- ===== src/Prelude/Lists.antt =====
-- Lists: length, tests, and predicates by recursion; and a law of `&&`.
use Prim.Native.Nat.{ℕ, suc, ◌+◌}
use mathlib.Core.Path.{◌≡◌, refl, sym, subst}
use mathlib.Core.Bool.{Bool, true, false, ◌&&◌, ◌||◌}
use mathlib.Core.Logic.{◌⊎◌, inl, inr}
use mathlib.Core.List.{List, [], ◌∷◌, ◌++◌, Memᴰ}
use mathlib.Core.List.Memᴰ.{cases_cons}
use native.Mathlib.Omega.{arith}

pub and_shift : (a b c : Bool) → (a && (b && c)) ≡ ((a && b) && c)
and_shift a b c = ground arith

module _ {ℓ} {A : Type ℓ} where
  abbrev pub length : List A → ℕ
  length [] = 0
  length (x ∷ xs) = suc (length xs)

  pub length-append : (xs ys : List A) → length (xs ++ ys) ≡ length xs + length ys
  length-append [] ys = omega arith
  length-append (x ∷ xs) ys = omega (arith, length-append xs ys)

  -- Python's `all` and `any` over a sequence.
  abbrev pub all : (A → Bool) → List A → Bool
  all p [] = true
  all p (x ∷ xs) = p x && all p xs

  abbrev pub any : (A → Bool) → List A → Bool
  any p [] = false
  any p (x ∷ xs) = p x || any p xs

  pub any-append : (p : A → Bool) (xs ys : List A) → any p (xs ++ ys) ≡ (any p xs || any p ys)
  any-append p [] ys = refl
  any-append p (x ∷ xs) ys = ground (arith, any-append p xs ys)

  pub all-append : (p : A → Bool) (xs ys : List A) → all p (xs ++ ys) ≡ (all p xs && all p ys)
  all-append p [] ys = refl
  all-append p (x ∷ xs) ys = ground (arith, all-append p xs ys)

  -- A predicate on every item.
  abbrev pub All {κ} : (A → Type κ) → List A → Type κ
  All P [] = Unit
  All P (x ∷ xs) = P x × All P xs

  pub All-append {κ} : (P : A → Type κ) (xs ys : List A) → All P xs → All P ys → All P (xs ++ ys)
  All-append P [] ys hx hy = hy
  All-append P (x ∷ xs) ys hx hy = (hx.0, All-append P xs ys hx.1 hy)

  pub All-of_mem {κ} : (P : A → Type κ) (xs : List A) → ((x : A) → Memᴰ x xs → P x) → All P xs
  All-of_mem P [] f = tt
  All-of_mem P (x ∷ xs) f = (f x (Memᴰ.head refl), All-of_mem P xs (λ y m. f y (Memᴰ.tail m)))

  -- If each item has its property or `D` holds, then all items have it or `D` holds.
  pub all_or_else {κ μ} :
      (Q : A → Type κ) (D : Type μ) (xs : List A)
      → ((x : A) → Memᴰ x xs → Q x ⊎ D)
      → ((x : A) → Memᴰ x xs → Q x) ⊎ D
  all_or_else Q D [] f = inl (λ x m. elim m [ ])
  all_or_else Q D (y ∷ ys) f = elim (f y (Memᴰ.head refl)) [
    | inr d ↦ inr d
    | inl q ↦ elim (all_or_else Q D ys (λ x m. f x (Memᴰ.tail m))) [
      | inr d ↦ inr d
      | inl g ↦ inl (λ x m. elim (cases_cons m) [ inl p ↦ subst Q (sym p) q | inr n ↦ g x n ])
    ]
  ]
