-- ===== src/Platform/Collections.antt =====
-- A collection as the list of its documents, and the meaning of the database's operations on it.
use Prim.Native.String.{compare}
use text.Mathlib.Text.{is_lt}
use xolo_api.Base.{
  String, ◌≤◌, count, count_mono, ◌≡◌, refl, Bool, true, false, not, List, [], ◌∷◌, ◌++◌, Option,
  none, some, filter, if◌then◌else◌, arith, Bool-cases, inl, inr,
}

module _ {ℓ} {A : Type ℓ} where
  -- the first document that fits
  abbrev pub find_first : (A → Bool) → List A → Option A
  find_first p [] = none
  find_first p (x ∷ xs) = if p x then some x else find_first p xs

  -- the first document that fits is taken out
  abbrev pub delete_first : (A → Bool) → List A → List A
  delete_first p [] = []
  delete_first p (x ∷ xs) = if p x then xs else x ∷ delete_first p xs

  -- the first document that fits is replaced
  abbrev pub replace_first : (A → Bool) → A → List A → List A
  replace_first p y [] = []
  replace_first p y (x ∷ xs) = if p x then y ∷ xs else x ∷ replace_first p y xs

  -- the first document that fits is changed
  abbrev pub update_first : (A → Bool) → (A → A) → List A → List A
  update_first p f [] = []
  update_first p f (x ∷ xs) = if p x then f x ∷ xs else x ∷ update_first p f xs

  -- the documents that fit are taken out
  abbrev pub delete_all : (A → Bool) → List A → List A
  delete_all p xs = filter (λ x. not (p x)) xs

  -- whether some document fits
  abbrev pub is_some : Option A → Bool
  is_some none = false
  is_some (some _) = true

  -- the first document that fits is replaced, or the document is added
  abbrev pub replace_or_append : (A → Bool) → A → List A → List A
  replace_or_append p y xs =
      if is_some (find_first p xs) then replace_first p y xs else xs ++ y ∷ []

  pub delete_first-absent :
      (p : A → Bool) (xs : List A) → find_first p xs ≡ none → delete_first p xs ≡ xs
  delete_first-absent p [] h = refl
  delete_first-absent p (x ∷ xs) h = ground (arith, delete_first-absent p xs)

  pub find_first-append :
      (p : A → Bool) (x : A) (xs ys : List A)
      → find_first p xs ≡ some x
      → find_first p (xs ++ ys) ≡ some x
  find_first-append p x [] ys h = absurd (cc h)
  find_first-append p x (y ∷ xs) ys h = ground (arith, find_first-append p x xs ys)

  pub find_first-fits : (p : A → Bool) (x : A) (xs : List A) → find_first p xs ≡ some x → p x ≡ true
  find_first-fits p x [] h = absurd (cc h)
  find_first-fits p x (y ∷ xs) h = elim (Bool-cases (p y)) [
    | inl here ↦ ground arith
    | inr later ↦ find_first-fits p x xs (ground arith)
  ]

  module _ (p q : A → Bool) (apart : (x : A) → p x ≡ true → q x ≡ false) where
    pub find_first-delete_first : (xs : List A) → find_first p (delete_first q xs) ≡ find_first p xs
    find_first-delete_first [] = refl
    find_first-delete_first (x ∷ xs) = ground (arith, find_first-delete_first xs, apart x)

    pub find_first-replace_first :
        (y : A) (xs : List A) → p y ≡ false → find_first p (replace_first q y xs) ≡ find_first p xs
    find_first-replace_first y [] h = refl
    find_first-replace_first y (x ∷ xs) h = ground (arith, find_first-replace_first y xs h, apart x)

  pub find_first-replace_self :
      (p : A → Bool) (x y : A) (xs : List A)
      → find_first p xs ≡ some x
      → p y ≡ true
      → find_first p (replace_first p y xs) ≡ some y
  find_first-replace_self p x y [] h fits = absurd (cc h)
  find_first-replace_self p x y (z ∷ xs) h fits = ground (arith, find_first-replace_self p x y xs)

  pub find_first-append_other :
      (p : A → Bool) (y : A) (xs : List A)
      → p y ≡ false
      → find_first p (xs ++ y ∷ []) ≡ find_first p xs
  find_first-append_other p y [] h = ground arith
  find_first-append_other p y (x ∷ xs) h = ground (arith, find_first-append_other p y xs)

  pub count-delete_first : (q p : A → Bool) (xs : List A) → count q (delete_first p xs) ≤ count q xs
  count-delete_first q p [] = omega arith
  count-delete_first q p (x ∷ xs) = ground (arith, count-delete_first q p xs)

  pub count-replace_first :
      (q p : A → Bool) (y : A) (xs : List A)
      → ((x : A) → p x ≡ true → q x ≡ q y)
      → count q (replace_first p y xs) ≡ count q xs
  count-replace_first q p y [] h = refl
  count-replace_first q p y (x ∷ xs) h = ground (arith, count-replace_first q p y xs h, h x)

  -- what is put in the first place that fits is found there by a narrower test
  pub find_first-put :
      (p q : A → Bool) (y : A) (xs : List A)
      → ((x : A) → q x ≡ true → p x ≡ true)
      → q y ≡ true
      → find_first q (replace_or_append p y xs) ≡ some y
  find_first-put p q y xs narrow fits = elim (Bool-cases (is_some (find_first p xs))) [
    | inl there ↦ rw there (put xs there)
    | inr absent ↦ rw absent (added xs absent)
  ]
    where
      put :
          (xs : List A)
          → is_some (find_first p xs) ≡ true
          → find_first q (replace_first p y xs) ≡ some y
      put [] h = absurd (cc h)
      put (x ∷ xs) h = ground (arith, put xs, narrow x, fits)

      added :
          (xs : List A) → is_some (find_first p xs) ≡ false → find_first q (xs ++ y ∷ []) ≡ some y
      added [] h = ground (arith, fits)
      added (x ∷ xs) h = ground (arith, added xs, narrow x)

  -- where one document at most fits, a narrower test finds the same
  pub find_first-only :
      (p q : A → Bool) (d : A) (xs : List A)
      → ((x : A) → q x ≡ true → p x ≡ true)
      → count p xs ≤ 1
      → find_first q xs ≡ some d
      → find_first p xs ≡ some d
  find_first-only p q d [] narrow once h = h
  find_first-only p q d (x ∷ xs) narrow once h = elim (Bool-cases (q x)) [
    | inl here ↦ ground (arith, narrow x)
    | inr later ↦ elim (Bool-cases (p x)) [
      | inr other ↦ ground (arith, find_first-only p q d xs narrow)
      | inl wide ↦
          ground
            (arith, find_first-only p q d xs narrow, count-some q d xs, count_mono q p xs narrow)
    ]
  ]
    where
      count-some : (q : A → Bool) (d : A) (xs : List A) → find_first q xs ≡ some d → 1 ≤ count q xs
      count-some q d [] h = absurd (cc h)
      count-some q d (x ∷ xs) h = ground (arith, count-some q d xs)

  -- a part of the collection that the documents taken out, or put in, are not of
  pub filter-delete_first :
      (q p : A → Bool) (xs : List A)
      → ((x : A) → p x ≡ true → q x ≡ false)
      → filter q (delete_first p xs) ≡ filter q xs
  filter-delete_first q p [] apart = refl
  filter-delete_first q p (x ∷ xs) apart = ground (arith, filter-delete_first q p xs apart, apart x)

  pub filter-replace_first :
      (q p : A → Bool) (y d : A) (xs : List A)
      → find_first p xs ≡ some d
      → q d ≡ false
      → q y ≡ false
      → filter q (replace_first p y xs) ≡ filter q xs
  filter-replace_first q p y d [] h out new = refl
  filter-replace_first q p y d (x ∷ xs) h out new = elim (Bool-cases (p x)) [
    | inl here ↦ let same : x ≡ d = ground arith in rw (here, new, same, out) refl
    | inr later ↦ ground (arith, filter-replace_first q p y d xs)
  ]

  pub count-absent : (p : A → Bool) (xs : List A) → find_first p xs ≡ none → count p xs ≡ 0
  count-absent p [] h = refl
  count-absent p (x ∷ xs) h = ground (arith, count-absent p xs)

  abbrev pub All {κ} : (A → Type κ) → List A → Type κ
  All P [] = Unit
  All P (x ∷ xs) = P x × All P xs

module _ {ℓ} {A : Type ℓ} (key : A → String) where
  -- into its place by the key
  abbrev pub put_on : A → List A → List A
  put_on x [] = x ∷ []
  put_on x (y ∷ ys) =
      let rest = put_on x ys in if is_lt (compare (key y) (key x)) then y ∷ rest else x ∷ y ∷ ys

  -- the documents in ascending order of the key
  abbrev pub sort_on : List A → List A
  sort_on [] = []
  sort_on (x ∷ xs) = put_on x (sort_on xs)

  count-put_on : (p : A → Bool) (x : A) (ys : List A) → count p (put_on x ys) ≡ count p (x ∷ ys)
  count-put_on p x [] = refl
  count-put_on p x (y ∷ ys) = ground (arith, count-put_on p x ys)

  pub count-sort_on : (p : A → Bool) (xs : List A) → count p (sort_on xs) ≡ count p xs
  count-sort_on p [] = refl
  count-sort_on p (x ∷ xs) = ground (arith, count-put_on p x (sort_on xs), count-sort_on p xs)

module _ {ℓ κ} {A : Type ℓ} where
  pub All-append : (P : A → Type κ) (xs ys : List A) → All P xs → All P ys → All P (xs ++ ys)
  All-append P [] ys hx hy = hy
  All-append P (x ∷ xs) ys hx hy = (hx.0, All-append P xs ys hx.1 hy)

  pub All-filter :
      (P Q : A → Type κ) (p : A → Bool) (xs : List A)
      → ((x : A) → p x ≡ true → P x → Q x)
      → All P xs
      → All Q (filter p xs)
  All-filter P Q p [] f h = tt
  All-filter P Q p (x ∷ xs) f h = elim (Bool-cases (p x)) [
    | inl keep ↦ rw keep (f x keep h.0, All-filter P Q p xs f h.1)
    | inr drop ↦ rw drop (All-filter P Q p xs f h.1)
  ]

  pub All-map : (P Q : A → Type κ) (xs : List A) → ((x : A) → P x → Q x) → All P xs → All Q xs
  All-map P Q [] f h = tt
  All-map P Q (x ∷ xs) f h = (f x h.0, All-map P Q xs f h.1)

  pub All-delete_first :
      (P : A → Type κ) (p : A → Bool) (xs : List A) → All P xs → All P (delete_first p xs)
  All-delete_first P p [] h = tt
  All-delete_first P p (x ∷ xs) h = elim (Bool-cases (p x)) [
    | inl gone ↦ rw gone h.1
    | inr kept ↦ rw kept (h.0, All-delete_first P p xs h.1)
  ]

  pub All-replace_first :
      (P : A → Type κ) (p : A → Bool) (y : A) (xs : List A)
      → ((x : A) → p x ≡ true → P x → P y)
      → All P xs
      → All P (replace_first p y xs)
  All-replace_first P p y [] f h = tt
  All-replace_first P p y (x ∷ xs) f h = elim (Bool-cases (p x)) [
    | inl here ↦ rw here (f x here h.0, h.1)
    | inr later ↦ rw later (h.0, All-replace_first P p y xs f h.1)
  ]

  pub All-find_first :
      (P : A → Type κ) (p : A → Bool) (x : A) (xs : List A)
      → All P xs
      → find_first p xs ≡ some x
      → P x
  All-find_first P p x [] h e = absurd (cc e)
  All-find_first P p x (y ∷ xs) h e = elim (Bool-cases (p y)) [
    | inl here ↦ let same : y ≡ x = ground arith in rw same at h.0
    | inr later ↦ All-find_first P p x xs h.1 (ground arith)
  ]

  pub All-replace_or_append :
      (P : A → Type κ) (p : A → Bool) (y : A) (xs : List A)
      → P y
      → All P xs
      → All P (replace_or_append p y xs)
  All-replace_or_append P p y xs new h = elim (Bool-cases (is_some (find_first p xs))) [
    | inl there ↦ rw there (All-replace_first P p y xs (λ _ _ _. new) h)
    | inr absent ↦ rw absent (All-append P xs (y ∷ []) h (new, tt))
  ]
