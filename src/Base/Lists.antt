-- ===== src/Base/Lists.antt =====
-- Python's list, set and comprehension idioms: `in`, `any`, a filter by a Boolean test, `len`.
use Prim.Native.Nat.{ℕ, zero, suc, ◌+◌, ◌≤◌}
use Prim.Native.String.{String}
use mathlib.Core.Path.{◌≡◌, refl}
use mathlib.Core.Logic.{inl, inr}
use mathlib.Core.Bool.{Bool, true, false, ◌&&◌, ◌||◌}
use mathlib.Core.List.{List, [], ◌∷◌, ◌++◌}
use native.Mathlib.Omega.{arith}
use text.Mathlib.Text.{◌==◌}
use text.Mathlib.TextEquality.{eq_iff}
use xolo_api.Base.Tests.{if◌then◌else◌, Bool-cases}

-- `k in xs`, on a list or a set of texts
abbrev pub elem : String → List String → Bool
elem k [] = false
elem k (x ∷ xs) = (x == k) || elem k xs

pub elem-append : (k : String) (xs ys : List String) → elem k (xs ++ ys) ≡ (elem k xs || elem k ys)
elem-append k [] ys = refl
elem-append k (x ∷ xs) ys = ground (arith, elem-append k xs ys)

module _ {ℓ} {A : Type ℓ} where
  abbrev pub length : List A → ℕ
  length [] = 0
  length (_ ∷ xs) = suc (length xs)

  pub length-append : (xs ys : List A) → length (xs ++ ys) ≡ length xs + length ys
  length-append [] ys = omega arith
  length-append (x ∷ xs) ys = omega (arith, length-append xs ys)

  -- `xs[:n]` and `xs[n:]`
  abbrev pub take : ℕ → List A → List A
  take zero xs = []
  take (suc n) [] = []
  take (suc n) (x ∷ xs) = x ∷ take n xs

  abbrev pub drop : ℕ → List A → List A
  drop zero xs = xs
  drop (suc n) [] = []
  drop (suc n) (x ∷ xs) = drop n xs

  -- `not xs`
  abbrev pub is_empty : List A → Bool
  is_empty [] = true
  is_empty (_ ∷ _) = false

  -- `[x for x in xs if p(x)]`
  abbrev pub filter : (A → Bool) → List A → List A
  filter p [] = []
  filter p (x ∷ xs) = if p x then x ∷ filter p xs else filter p xs

  -- `any(p(x) for x in xs)`
  abbrev pub any : (A → Bool) → List A → Bool
  any p [] = false
  any p (x ∷ xs) = p x || any p xs

  -- `all(p(x) for x in xs)`
  abbrev pub all : (A → Bool) → List A → Bool
  all p [] = true
  all p (x ∷ xs) = p x && all p xs

  pub length-filter : (p : A → Bool) (xs : List A) → length (filter p xs) ≤ length xs
  length-filter p [] = omega arith
  length-filter p (x ∷ xs) = ground (arith, length-filter p xs)

  pub any-append : (p : A → Bool) (xs ys : List A) → any p (xs ++ ys) ≡ (any p xs || any p ys)
  any-append p [] ys = refl
  any-append p (x ∷ xs) ys = ground (arith, any-append p xs ys)

  pub filter-append :
      (p : A → Bool) (xs ys : List A) → filter p (xs ++ ys) ≡ filter p xs ++ filter p ys
  filter-append p [] ys = refl
  filter-append p (x ∷ xs) ys = ground (arith, filter-append p xs ys)

module _ {ℓ} {A : Type ℓ} where
  -- `sum(1 for x in xs if p(x))`
  abbrev pub count : (A → Bool) → List A → ℕ
  count p [] = 0
  count p (x ∷ xs) = if p x then suc (count p xs) else count p xs

  pub count-append : (p : A → Bool) (xs ys : List A) → count p (xs ++ ys) ≡ count p xs + count p ys
  count-append p [] ys = omega arith
  count-append p (x ∷ xs) ys = ground (arith, count-append p xs ys)

  pub count-filter : (p q : A → Bool) (xs : List A) → count p (filter q xs) ≤ count p xs
  count-filter p q [] = omega arith
  count-filter p q (x ∷ xs) = ground (arith, count-filter p q xs)

  pub count_mono :
      (p q : A → Bool) (xs : List A) → ((x : A) → p x ≡ true → q x ≡ true) → count p xs ≤ count q xs
  count_mono p q [] h = omega arith
  count_mono p q (x ∷ xs) h = ground (arith, count_mono p q xs h, h x)

  pub count-zero : (p : A → Bool) (xs : List A) → any p xs ≡ false → count p xs ≡ 0
  count-zero p [] h = refl
  count-zero p (x ∷ xs) h = ground (arith, count-zero p xs)

pub elem-filter :
    (k : String) (p : String → Bool) (xs : List String) → elem k (filter p xs) ≡ (elem k xs && p k)
elem-filter k p [] = refl
elem-filter k p (x ∷ xs) = elim (Bool-cases (x == k)) [
  | inl same ↦ rw ((eq_iff x k).0 same) (ground (arith, elem-filter k p xs, eq_iff k k))
  | inr other ↦ ground (arith, elem-filter k p xs)
]

-- `any` over a set of texts finds a member, and the other way round.
pub any-elim :
    (p : String → Bool) (xs : List String)
    → any p xs ≡ true
    → (x : String) × (elem x xs ≡ true) × (p x ≡ true)
any-elim p [] h = absurd (cc h)
any-elim p (x ∷ xs) h = elim (Bool-cases (p x)) [
  | inl here ↦ (x, ground (arith, eq_iff x x), here)
  | inr later ↦ let (y, m, t) = any-elim p xs (ground arith) in (y, ground arith, t)
]

pub any-intro :
    (p : String → Bool) (x : String) (xs : List String)
    → elem x xs ≡ true
    → p x ≡ true
    → any p xs ≡ true
any-intro p x [] m h = m
any-intro p x (y ∷ ys) m h = elim (Bool-cases (y == x)) [
  | inl same ↦ rw ((eq_iff y x).0 same) (ground arith)
  | inr other ↦ ground (arith, any-intro p x ys)
]
