-- ===== src/ApiKeys/Lists.antt =====
-- What a change of one document, found by its key, does to the others.
use xolo_api.Base.{
  ◌+◌, ◌≤◌, ◌≡◌, refl, ap, Bool, true, false, ◌&&◌, List, [], ◌∷◌, any, count, count-append, none,
  some, arith, Bool-cases, inl, inr,
}
use xolo_api.Platform.Collections.{
  find_first, replace_first, update_first, replace_or_append, delete_first, is_some,
}

module _ {A : Type 0} where
  pub count-put_same :
      (p q : A → Bool) (x y : A) (c : List A)
      → find_first q c ≡ some y
      → p x ≡ p y
      → count p (replace_or_append q x c) ≡ count p c
  count-put_same p q x y c found same = rw found (put c found)
    where
      put : (c : List A) → find_first q c ≡ some y → count p (replace_first q x c) ≡ count p c
      put [] h = refl
      put (z ∷ c) h = elim (Bool-cases (q z)) [
        | inl here ↦ let at : z ≡ y = ground arith in ground (arith, ap p at)
        | inr later ↦ ground (arith, put c)
      ]

  pub count-put_more :
      (p q : A → Bool) (x : A) (c : List A) → count p (replace_or_append q x c) ≤ count p c + 1
  count-put_more p q x c = elim (Bool-cases (is_some (find_first q c))) [
    | inl there ↦ rw there (put c)
    | inr absent ↦ rw absent (ground (arith, count-append p c (x ∷ [])))
  ]
    where
      put : (c : List A) → count p (replace_first q x c) ≤ count p c + 1
      put [] = omega arith
      put (z ∷ c) = ground (arith, put c)

  pub count-update_first :
      (p q : A → Bool) (f : A → A) (c : List A)
      → ((x : A) → p (f x) ≡ p x)
      → count p (update_first q f c) ≡ count p c
  count-update_first p q f [] h = refl
  count-update_first p q f (x ∷ c) h = ground (arith, count-update_first p q f c h, h x)

  pub any-update_first :
      (p q : A → Bool) (f : A → A) (c : List A)
      → ((x : A) → p (f x) ≡ p x)
      → any p (update_first q f c) ≡ any p c
  any-update_first p q f [] h = refl
  any-update_first p q f (x ∷ c) h = ground (arith, any-update_first p q f c h, h x)

  pub any-delete_first :
      (p q : A → Bool) (c : List A) → any p c ≡ false → any p (delete_first q c) ≡ false
  any-delete_first p q [] h = refl
  any-delete_first p q (x ∷ c) h = ground (arith, any-delete_first p q c)

  any-none : (p q : A → Bool) (c : List A) → count p c ≤ 0 → any (λ x. p x && q x) c ≡ false
  any-none p q [] h = refl
  any-none p q (x ∷ c) h = ground (arith, any-none p q c)

  -- the only one that fits, found by its key, is taken out
  pub any-delete_only :
      (p q r : A → Bool) (y : A) (c : List A)
      → find_first q c ≡ some y
      → p y ≡ true
      → count p c ≤ 1
      → any (λ x. p x && r x) (delete_first q c) ≡ false
  any-delete_only p q r y [] found fits once = refl
  any-delete_only p q r y (x ∷ c) found fits once = elim (Bool-cases (q x)) [
    | inl here ↦ let at : x ≡ y = ground arith in ground (arith, ap p at, any-none p r c)
    | inr later ↦ ground (arith, any-delete_only p q r y c, listed c)
  ]
    where
      listed : (c : List A) → find_first q c ≡ some y → 1 ≤ count p c
      listed [] h = absurd (cc h)
      listed (z ∷ c) h = elim (Bool-cases (q z)) [
        | inl here ↦ let at : z ≡ y = ground arith in ground (arith, ap p at)
        | inr later ↦ ground (arith, listed c)
      ]

  -- or replaced
  pub any-replace_only :
      (p q r : A → Bool) (x y : A) (c : List A)
      → find_first q c ≡ some y
      → p y ≡ true
      → count p c ≤ 1
      → (p x && r x) ≡ false
      → any (λ z. p z && r z) (replace_or_append q x c) ≡ false
  any-replace_only p q r x y c found fits once out = rw found (put c found once)
    where
      put :
          (c : List A)
          → find_first q c ≡ some y
          → count p c ≤ 1
          → any (λ z. p z && r z) (replace_first q x c) ≡ false
      put [] found once = refl
      put (z ∷ c) found once =
          ground (arith, put c, any-delete_only p q r y (z ∷ c) found fits once)

  -- the only one that fits decides
  pub any-first :
      (p q : A → Bool) (y : A) (c : List A)
      → find_first p c ≡ some y
      → count p c ≤ 1
      → any (λ x. p x && q x) c ≡ q y
  any-first p q y [] h once = absurd (cc h)
  any-first p q y (x ∷ c) h once = elim (Bool-cases (p x)) [
    | inl here ↦ let at : x ≡ y = ground arith in ground (arith, ap q at, any-none p q c)
    | inr later ↦ ground (arith, any-first p q y c)
  ]

  pub any-found :
      (p q : A → Bool) (y : A) (c : List A)
      → any (λ x. p x && q x) c ≡ false
      → find_first p c ≡ some y
      → q y ≡ false
  any-found p q y [] h found = absurd (cc found)
  any-found p q y (x ∷ c) h found = elim (Bool-cases (p x)) [
    | inl here ↦ let at : x ≡ y = ground arith in ground (arith, ap q at)
    | inr later ↦ any-found p q y c (ground arith) (ground arith)
  ]

  pub any-missing :
      (p q : A → Bool) (c : List A) → find_first p c ≡ none → any (λ x. p x && q x) c ≡ false
  any-missing p q [] h = refl
  any-missing p q (x ∷ c) h = ground (arith, any-missing p q c)
