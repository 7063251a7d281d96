-- ===== src/Platform/Mongo.antt =====
-- The collections of MongoDB, as the repositories use them through `motor`: operations and what
-- their documentation promises. A query is a Boolean test on a document. `replace_one` and
-- `delete_one` also say whether a document matched, `delete_many` how many were deleted.
use xolo_api.Base.{
  ℕ, zero, suc, String, ◌≡◌, refl, Bool, true, false, List, [], ◌∷◌, ◌++◌, Option, filter, count,
  length, take, drop, if◌then◌else◌, ◌≤◌, arith,
}
use xolo_api.Platform.Collections.{
  find_first, delete_first, replace_first, update_first, replace_or_append, delete_all, is_some,
  sort_on, count-sort_on,
}

-- what `skip` and `limit` leave
abbrev pub page_of {ℓ} : {A : Type ℓ} → ℕ → ℕ → List A → List A
page_of n zero xs = drop n xs
page_of n (suc m) xs = take (suc m) (drop n xs)

pub record Mongo : Type 1 where
  pub find_one : {A : Type 0} → (A → Bool) → List A → Option A
  pub find : {A : Type 0} → (A → Bool) → List A → List A
  pub insert_one : {A : Type 0} → A → List A → List A
  pub replace_one : {A : Type 0} → (A → Bool) → A → List A → Bool × List A
  -- `replace_one(..., upsert=True)`
  pub upsert_one : {A : Type 0} → (A → Bool) → A → List A → List A
  -- `update_one(..., {"$set": ...})`
  pub update_one : {A : Type 0} → (A → Bool) → (A → A) → List A → List A
  -- `update_one(..., {"$setOnInsert": ...}, upsert=True)`
  pub insert_missing : {A : Type 0} → (A → Bool) → A → List A → List A
  pub delete_one : {A : Type 0} → (A → Bool) → List A → Bool × List A
  pub delete_many : {A : Type 0} → (A → Bool) → List A → ℕ × List A
  -- `insert_one` where a unique index holds the key that the test is for; false stands for the
  -- error of a duplicate key
  pub insert_unique : {A : Type 0} → (A → Bool) → A → List A → Bool × List A
  pub count_documents : {A : Type 0} → (A → Bool) → List A → ℕ
  -- `find(...).skip(...).limit(...)`: the limit 0 is none
  pub find_page : {A : Type 0} → (A → Bool) → ℕ → ℕ → List A → List A
  -- `.sort([(key, 1)])` of a cursor
  pub sort : {A : Type 0} → (A → String) → List A → List A
  pub find_one_law : {A : Type 0} (p : A → Bool) (c : List A) → find_one p c ≡ find_first p c
  pub find_law : {A : Type 0} (p : A → Bool) (c : List A) → find p c ≡ filter p c
  pub insert_one_law : {A : Type 0} (x : A) (c : List A) → insert_one x c ≡ c ++ x ∷ []
  pub replace_one_law :
      {A : Type 0} (p : A → Bool) (x : A) (c : List A)
      → replace_one p x c ≡ (is_some (find_first p c), replace_first p x c)
  pub upsert_one_law :
      {A : Type 0} (p : A → Bool) (x : A) (c : List A) → upsert_one p x c ≡ replace_or_append p x c
  pub update_one_law :
      {A : Type 0} (p : A → Bool) (f : A → A) (c : List A) → update_one p f c ≡ update_first p f c
  pub insert_missing_law :
      {A : Type 0} (p : A → Bool) (x : A) (c : List A)
      → insert_missing p x c ≡ (if is_some (find_first p c) then c else c ++ x ∷ [])
  pub delete_one_law :
      {A : Type 0} (p : A → Bool) (c : List A)
      → delete_one p c ≡ (is_some (find_first p c), delete_first p c)
  pub delete_many_law :
      {A : Type 0} (p : A → Bool) (c : List A)
      → delete_many p c ≡ (length (filter p c), delete_all p c)
  pub insert_unique_law :
      {A : Type 0} (p : A → Bool) (x : A) (c : List A)
      → insert_unique p x c ≡ (if is_some (find_first p c) then (false, c) else (true, c ++ x ∷ []))
  pub count_documents_law :
      {A : Type 0} (p : A → Bool) (c : List A) → count_documents p c ≡ length (filter p c)
  -- the order is not promised without a sort: a page has the size that its place says, and no document
  -- more often than the collection has documents that fit
  pub find_page_size_law :
      {A : Type 0} (p : A → Bool) (n m : ℕ) (c : List A)
      → length (find_page p n m c) ≡ length (page_of n m (filter p c))
  pub find_page_count_law :
      {A : Type 0} (p : A → Bool) (n m : ℕ) (c : List A) (q : A → Bool)
      → count q (find_page p n m c) ≤ count q (filter p c)
  pub sort_law :
      {A : Type 0} (key : A → String) (p : A → Bool) (c : List A) → count p (sort key c) ≡ count p c

module _ {A : Type 0} (q : A → Bool) where
  count-drop : (n : ℕ) (xs : List A) → count q (drop n xs) ≤ count q xs
  count-drop zero xs = omega arith
  count-drop (suc n) [] = omega arith
  count-drop (suc n) (x ∷ xs) = ground (arith, count-drop n xs)

  count-take : (n : ℕ) (xs : List A) → count q (take n xs) ≤ count q xs
  count-take zero xs = omega arith
  count-take (suc n) [] = omega arith
  count-take (suc n) (x ∷ xs) = ground (arith, count-take n xs)

  pub count-page_of : (n m : ℕ) (xs : List A) → count q (page_of n m xs) ≤ count q xs
  count-page_of n zero xs = count-drop n xs
  count-page_of n (suc m) xs = omega (arith, count-take (suc m) (drop n xs), count-drop n xs)

-- An in-memory database, which meets the promises.
abbrev pub in_memory : Mongo
in_memory = record {
  find_one = find_first;
  find = filter;
  insert_one = λ x c. c ++ x ∷ [];
  replace_one = λ p x c. (is_some (find_first p c), replace_first p x c);
  upsert_one = replace_or_append;
  update_one = update_first;
  insert_missing = λ p x c. if is_some (find_first p c) then c else c ++ x ∷ [];
  delete_one = λ p c. (is_some (find_first p c), delete_first p c);
  delete_many = λ p c. (length (filter p c), delete_all p c);
  insert_unique = λ p x c. if is_some (find_first p c) then (false, c) else (true, c ++ x ∷ []);
  count_documents = λ p c. length (filter p c);
  find_page = λ p n m c. page_of n m (filter p c);
  sort = sort_on;
  find_one_law = λ p c. refl;
  find_law = λ p c. refl;
  insert_one_law = λ x c. refl;
  replace_one_law = λ p x c. refl;
  upsert_one_law = λ p x c. refl;
  update_one_law = λ p f c. refl;
  insert_missing_law = λ p x c. refl;
  delete_one_law = λ p c. refl;
  delete_many_law = λ p c. refl;
  insert_unique_law = λ p x c. refl;
  count_documents_law = λ p c. refl;
  find_page_size_law = λ p n m c. refl;
  find_page_count_law = λ p n m c q. count-page_of q n m (filter p c);
  sort_law = λ key p c. count-sort_on key p c;
}
