-- ===== src/Groups/Names.antt =====
-- Names: the name that is compared is stable under cleaning, and lists keep their keys apart.
use Prim.Native.Char.{code}
use xolo_api.Base.{
  String, ◌≤◌, ◌≡◌, refl, ap, ◌∙◌, Bool, true, false, not, ◌&&◌, List, [], ◌∷◌, ◌++◌, any, count,
  count-append, none, some, arith, Bool-cases, Option-cases, inl, inr,
}
use xolo_api.Platform.Collections.{
  find_first, replace_first, replace_or_append, is_some, count-absent,
}
use xolo_api.Platform.Text.{is_space, lstrip, collapsed, one_spaced}

collapsed-again : (gap : Bool) (s : String) → collapsed false (collapsed gap s) ≡ collapsed gap s
unfolding collapsed is_space
collapsed-again gap String.[] = refl
collapsed-again true (String.◌∷◌ c s) = elim (Bool-cases (is_space (code c))) [
  | inl space ↦ rw (space, collapsed) (collapsed-again true s)
  | inr plain ↦
      rw (plain, collapsed)
        (rw plain (ap (λ t. String.◌∷◌ " " (String.◌∷◌ c t)) (collapsed-again false s)))
]
collapsed-again false (String.◌∷◌ c s) = elim (Bool-cases (is_space (code c))) [
  | inl space ↦ rw (space, collapsed) (collapsed-again true s)
  | inr plain ↦
      rw (plain, collapsed) (rw plain (ap (λ t. String.◌∷◌ c t) (collapsed-again false s)))
]

-- a text without space in front keeps none
stripped : (s : String) → lstrip (collapsed false (lstrip s)) ≡ collapsed false (lstrip s)
unfolding lstrip collapsed
stripped String.[] = refl
stripped (String.◌∷◌ c s) = elim (Bool-cases (is_space (code c))) [
  | inl space ↦ rw (space) (stripped s)
  | inr plain ↦ rw (plain) (rw (plain, collapsed) (rw (plain, lstrip) refl))
]

pub one_spaced-again : (s : String) → one_spaced (one_spaced s) ≡ one_spaced s
unfolding one_spaced
one_spaced-again s = ap (collapsed false) (stripped s) ∙ collapsed-again false (lstrip s)

module _ {A : Type 0} where
  pub any-count :
      (q p : A → Bool) (xs : List A)
      → any (λ x. q x && not (p x)) xs ≡ false
      → count q xs ≤ count p xs
  any-count q p [] h = omega arith
  any-count q p (x ∷ xs) h = ground (arith, any-count q p xs)

  pub any-put :
      (r p : A → Bool) (y : A) (xs : List A)
      → any r xs ≡ false
      → r y ≡ false
      → any r (replace_or_append p y xs) ≡ false
  any-put r p y xs h fits = elim (Bool-cases (is_some (find_first p xs))) [
    | inl there ↦ rw there (put xs h)
    | inr absent ↦ rw absent (add xs h)
  ]
    where
      put : (xs : List A) → any r xs ≡ false → any r (replace_first p y xs) ≡ false
      put [] h = refl
      put (x ∷ xs) h = ground (arith, put xs, fits)

      add : (xs : List A) → any r xs ≡ false → any r (xs ++ y ∷ []) ≡ false
      add [] h = ground (arith, fits)
      add (x ∷ xs) h = ground (arith, add xs)

  pub count-put_other :
      (q p : A → Bool) (y : A) (xs : List A)
      → q y ≡ false
      → count q (replace_or_append p y xs) ≤ count q xs
  count-put_other q p y xs out = elim (Bool-cases (is_some (find_first p xs))) [
    | inl there ↦ rw there (put xs)
    | inr absent ↦ rw absent (ground (arith, count-append q xs (y ∷ []), out))
  ]
    where
      put : (xs : List A) → count q (replace_first p y xs) ≤ count q xs
      put [] = omega arith
      put (x ∷ xs) = ground (arith, put xs, out)

  -- what is put under its key leaves the key once
  pub count-put_self :
      (p : A → Bool) (y : A) (xs : List A)
      → p y ≡ true
      → count p xs ≤ 1
      → count p (replace_or_append p y xs) ≤ 1
  count-put_self p y xs fits once = elim (Option-cases (find_first p xs)) [
    | inr (old, found) ↦ rw (found) (ground (arith, put xs, once))
    | inl absent ↦
        rw (absent) (ground (arith, count-append p xs (y ∷ []), count-absent p xs absent, fits))
  ]
    where
      put : (xs : List A) → count p (replace_first p y xs) ≤ count p xs
      put [] = omega arith
      put (x ∷ xs) = ground (arith, put xs, fits)

  pub any-absent :
      (q p : A → Bool) (xs : List A)
      → find_first q xs ≡ none
      → any (λ x. q x && not (p x)) xs ≡ false
  any-absent q p [] h = refl
  any-absent q p (x ∷ xs) h = ground (arith, any-absent q p xs)

  pub any-only :
      (q p : A → Bool) (d : A) (xs : List A)
      → find_first q xs ≡ some d
      → p d ≡ true
      → count q xs ≤ 1
      → any (λ x. q x && not (p x)) xs ≡ false
  any-only q p d [] found fits once = refl
  any-only q p d (x ∷ xs) found fits once = elim (Bool-cases (q x)) [
    | inr other ↦ ground (arith, any-only q p d xs)
    | inl here ↦ let same : x ≡ d = ground arith in ground (arith, ap p same, zero-any xs)
  ]
    where
      zero-any : (xs : List A) → count q xs ≤ 0 → any (λ x. q x && not (p x)) xs ≡ false
      zero-any [] h = refl
      zero-any (x ∷ xs) h = ground (arith, zero-any xs)

  -- the one that a key finds is the only one of its name
  pub any-own :
      (q p : A → Bool) (d : A) (xs : List A)
      → find_first p xs ≡ some d
      → q d ≡ true
      → count q xs ≤ 1
      → any (λ x. q x && not (p x)) xs ≡ false
  any-own q p d [] found fits once = refl
  any-own q p d (x ∷ xs) found fits once = elim (Bool-cases (p x)) [
    | inl here ↦ let same : x ≡ d = ground arith in ground (arith, ap q same, zero-any xs)
    | inr later ↦ ground (arith, any-own q p d xs, present xs)
  ]
    where
      zero-any : (xs : List A) → count q xs ≤ 0 → any (λ x. q x && not (p x)) xs ≡ false
      zero-any [] h = refl
      zero-any (x ∷ xs) h = ground (arith, zero-any xs)

      present : (xs : List A) → find_first p xs ≡ some d → 1 ≤ count q xs
      present [] h = absurd (cc h)
      present (x ∷ xs) h = elim (Bool-cases (p x)) [
        | inl here ↦ let same : x ≡ d = ground arith in ground (arith, ap q same)
        | inr later ↦ ground (arith, present xs)
      ]
