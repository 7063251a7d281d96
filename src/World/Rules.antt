-- ===== src/World/Rules.antt =====
-- How properties of the database go through a coroutine: one rule for each way to build one.
use xolo_api.Base.{
  ◌⊎◌, ◌+◌, Bool-cases, inl, inr, ◌≡◌, refl, Bool, true, false, Option, none, some, if◌then◌else◌,
}
use xolo_api.Errors.{XoloException, database}
use xolo_api.Exec.{Result, ok, err, Exec, pure, raise, or_raise, raise_if, recover, escapes, ◌>>=◌}
use xolo_api.World.{Database, World, query, query_uncaught, command, transaction}

-- How a coroutine ended: with a value and the database that goes with it, or with an error.
abbrev pub Post :
    {A : Type 0} → (A → Database → Type 0) → (Database → Type 0) → Result A × World → Type 0
Post Q E (ok a, w) = Q a w.db
Post Q E (err e, w) = E w.db

-- From a database with `P` the coroutine returns a value with `Q`, or fails and leaves `E`.
pub record Runs {A : Type 0} (P : Database → Type 0) (m : Exec World A) (Q : A → Database → Type 0)
    (E : Database → Type 0) : Type 0 where
  pub at : (w : World) → P w.db → Post Q E (m w)

module _ {A : Type 0} {P E : Database → Type 0} {Q : A → Database → Type 0} where
  pub Runs-pure : (a : A) → ((db : Database) → P db → Q a db) → Runs P (pure a) Q E
  unfolding pure
  Runs-pure a f = record { at = λ w h. f w.db h }

  pub Runs-raise : (e : XoloException) → ((db : Database) → P db → E db) → Runs P (raise e) Q E
  unfolding raise
  Runs-raise e f = record { at = λ w h. f w.db h }

  pub Runs-or_raise :
      (o : Option A) (e : XoloException)
      → ((db : Database) → P db → E db)
      → ((a : A) → o ≡ some a → (db : Database) → P db → Q a db)
      → Runs P (or_raise o e) Q E
  unfolding or_raise
  Runs-or_raise none e f g = record { at = λ w h. f w.db h }
  Runs-or_raise (some a) e f g = record { at = λ w h. g a refl w.db h }

  pub Runs-query :
      (f : Database → A)
      → ((db : Database) → P db → Q (f db) db)
      → ((db : Database) → P db → E db)
      → Runs P (query f) Q E
  unfolding query
  Runs-query f keep fail = record { at = λ w h. split w h (w.outage w.calls) refl }
    where
      split : (w : World) → P w.db → (b : Bool) → w.outage w.calls ≡ b → Post Q E (query f w)
      split w h true e = rw (e, query) (fail w.db h)
      split w h false e = rw (e, query) (keep w.db h)

  pub Runs-query_uncaught :
      (f : Database → A)
      → ((db : Database) → P db → Q (f db) db)
      → ((db : Database) → P db → E db)
      → Runs P (query_uncaught f) Q E
  unfolding query_uncaught
  Runs-query_uncaught f keep fail = record { at = λ w h. split w h (w.outage w.calls) refl }
    where
      split :
          (w : World) → P w.db → (b : Bool) → w.outage w.calls ≡ b → Post Q E (query_uncaught f w)
      split w h true e = rw (e, query_uncaught) (fail w.db h)
      split w h false e = rw (e, query_uncaught) (keep w.db h)

  pub Runs-command :
      (f : Database → A × Database)
      → ((db : Database) → P db → Q (f db).0 (f db).1)
      → ((db : Database) → P db → E db)
      → Runs P (command f) Q E
  unfolding command
  Runs-command f keep fail = record { at = λ w h. split w h (w.outage w.calls) refl }
    where
      split : (w : World) → P w.db → (b : Bool) → w.outage w.calls ≡ b → Post Q E (command f w)
      split w h true e = rw (e, command) (fail w.db h)
      split w h false e = rw (e, command) (keep w.db h)

  pub Runs-if :
      (b : Bool) (m n : Exec World A)
      → (b ≡ true → Runs P m Q E)
      → (b ≡ false → Runs P n Q E)
      → Runs P (if b then m else n) Q E
  Runs-if true m n f g = f refl
  Runs-if false m n f g = g refl

-- a coroutine that ends in the property, however it ends
pub Runs-keep :
    {A : Type 0} {P R : Database → Type 0} (m : Exec World A)
    → ((w : World) → P w.db → R (m w).1.db)
    → Runs P m (λ _. R) R
Runs-keep {A} {P} {R} m keep = record { at = λ w h. split (m w) (keep w h) }
  where
    split : (r : Result A × World) → R r.1.db → Post (λ _. R) R r
    split (ok a, w) h = h
    split (err e, w) h = h

-- a coroutine that only reads
pub Runs-read :
    {A : Type 0} {P : Database → Type 0} (m : Exec World A)
    → ((w : World) → (m w).1.db ≡ w.db)
    → Runs P m (λ _. P) P
Runs-read {P = P} m same = Runs-keep m (λ w h. rw (same w) h)

-- the same, where a failure may leave less
pub Runs-fixed :
    {A : Type 0} {P E : Database → Type 0} (m : Exec World A)
    → ((w : World) → (m w).1.db ≡ w.db)
    → ((db : Database) → P db → E db)
    → Runs P m (λ _. P) E
Runs-fixed {A} {P} {E} m same fail = record { at = λ w h. split (m w) (rw (same w) h) }
  where
    split : (r : Result A × World) → P r.1.db → Post (λ _. P) E r
    split (ok a, w) h = h
    split (err e, w) h = fail w.db h

-- from more than is needed
pub Runs-from :
    {A : Type 0} {P P' E : Database → Type 0} {Q : A → Database → Type 0} {m : Exec World A}
    → ((db : Database) → P db → P' db)
    → Runs P' m Q E
    → Runs P m Q E
Runs-from f r = record { at = λ w h. r.at w (f w.db h) }

-- from a database that is known
pub Runs-freeze :
    {A : Type 0} {P E : Database → Type 0} {Q : A → Database → Type 0} {m : Exec World A}
    → ((db : Database) → P db → Runs (λ db'. db' ≡ db) m Q E)
    → Runs P m Q E
Runs-freeze f = record { at = λ w h. (f w.db h).at w refl }

-- to less than is shown
pub Runs-weaken :
    {A : Type 0} {P E E' : Database → Type 0} {Q Q' : A → Database → Type 0} (m : Exec World A)
    → ((a : A) (db : Database) → Q a db → Q' a db)
    → ((db : Database) → E db → E' db)
    → Runs P m Q E
    → Runs P m Q' E'
Runs-weaken {A} {P} {E} {E'} {Q} {Q'} m f g r = record { at = λ w h. split (m w) (r.at w h) }
  where
    split : (r : Result A × World) → Post Q E r → Post Q' E' r
    split (ok a, w) h = f a w.db h
    split (err e, w) h = g w.db h

-- What holds at both ends holds of the database that is left.
pub Runs-left :
    {A : Type 0} {P : Database → Type 0} (m : Exec World A)
    → Runs P m (λ _. P) P
    → (w : World) → P w.db
    → P (m w).1.db
Runs-left {A} {P} m runs w h = join (m w) (runs.at w h)
  where
    join : (r : Result A × World) → Post (λ _. P) P r → P r.1.db
    join (ok a, w) k = k
    join (err e, w) k = k

-- the same where more is needed at the start
pub Runs-leave :
    {A : Type 0} {P R : Database → Type 0} (m : Exec World A)
    → Runs P m (λ _. R) R
    → (w : World) → P w.db
    → R (m w).1.db
Runs-leave {A} {P} {R} m runs w h = join (m w) (runs.at w h)
  where
    join : (r : Result A × World) → Post (λ _. R) R r → R r.1.db
    join (ok a, w) k = k
    join (err e, w) k = k

pub Runs-raise_if :
    {P E : Database → Type 0} (b : Bool) (e : XoloException)
    → ((db : Database) → P db → E db)
    → Runs P (raise_if b e) (λ _ db. P db × (b ≡ false)) E
unfolding raise_if
Runs-raise_if true e f = record { at = λ w h. f w.db h }
Runs-raise_if false e f = record { at = λ w h. (h, refl) }

-- the same where only the property goes on
pub Runs-check :
    {P E : Database → Type 0} (b : Bool) (e : XoloException)
    → ((db : Database) → P db → E db)
    → Runs P (raise_if b e) (λ _. P) E
unfolding raise_if
Runs-check true e f = record { at = λ w h. f w.db h }
Runs-check false e f = record { at = λ w h. h }

module _ {A B : Type 0} {P E : Database → Type 0} {R : B → Database → Type 0} where
  pub Runs-bind :
      (Q : A → Database → Type 0) (m : Exec World A) (k : A → Exec World B)
      → Runs P m Q E
      → ((a : A) → Runs (Q a) (k a) R E)
      → Runs P (m >>= k) R E
  unfolding ◌>>=◌
  Runs-bind Q m k first then_rest = record { at = λ w h. go (m w) (first.at w h) }
    where
      go :
          (r : Result A × World)
          → Post Q E r
          → Post R E (elim r.0 [ ok a ↦ k a r.1 | err e ↦ (err e, r.1) ])
      go (ok a, w) h = (then_rest a).at w h
      go (err e, w) h = h

-- `if r.is_err:` with a way on
pub Runs-recover :
    {A : Type 0} {P E E' : Database → Type 0} {Q : A → Database → Type 0} (m : Exec World A)
    (k : XoloException → Exec World A)
    → Runs P m Q E'
    → ((db : Database) → E' db → E db)
    → ((e : XoloException) → Runs E' (k e) Q E)
    → Runs P (recover m k) Q E
unfolding recover
Runs-recover {A} {P} {E} {E'} {Q} m k first fail rest = record {
  at = λ w h. go (m w) (first.at w h);
}
  where
    go :
        (x : Result A × World)
        → Post Q E' x
        → Post Q E
            (elim x.0 [ ok a ↦ (ok a, x.1) | err e ↦ if escapes e then (err e, x.1) else k e x.1 ])
    go (ok a, w) h = h
    go (err e, w) h = elim (Bool-cases (escapes e)) [
      | inl out ↦ rw (out, Post) (fail w.db h)
      | inr caught ↦ rw caught ((rest e).at w h)
    ]

-- a transaction keeps what its calls keep
pub keeps-transaction :
    {A : Type 0} (P : Database → Type 0) (m : Exec World A)
    → ((w : World) → P w.db → P (m w).1.db)
    → (w : World) → P w.db
    → P (transaction m w).1.db
unfolding transaction
keeps-transaction {A} P m keep w h = go (m w) (keep w h)
  where
    go :
        (x : Result A × World)
        → P x.1.db
        → let y : Result A × World = elim x.0 [
          | err e ↦ (err e, record (x.1) { db = w.db })
          | ok a ↦ elim (x.1.outage x.1.calls) [
            | true ↦ (err database, record (x.1) { db = w.db; calls = x.1.calls + 1 })
            | false ↦ (ok a, record (x.1) { calls = x.1.calls + 1 })
          ]
        ] in
          P y.1.db
    go (err e, w') k = h
    go (ok a, w') k = elim (Bool-cases (w'.outage w'.calls)) [
      | inl down ↦ rw down h
      | inr up ↦ rw up k
    ]

-- from a known database a transaction ends with a value and what its calls make of it, or leaves it
pub Runs-transaction :
    {A : Type 0} {db : Database} {Q : A → Database → Type 0} (m : Exec World A)
    → Runs (λ d. d ≡ db) m Q (λ _. Unit)
    → Runs (λ d. d ≡ db) (transaction m) Q (λ d. d ≡ db)
unfolding transaction
Runs-transaction {A} {db} {Q} m runs = record { at = λ w h. go w h (m w) (runs.at w h) }
  where
    go :
        (w : World)
        → w.db ≡ db
        → (x : Result A × World) → Post Q (λ _. Unit) x
        → Post Q
            (λ d. d ≡ db)
            (elim x.0 [
              | err e ↦ (err e, record (x.1) { db = w.db })
              | ok a ↦ elim (x.1.outage x.1.calls) [
                | true ↦ (err database, record (x.1) { db = w.db; calls = x.1.calls + 1 })
                | false ↦ (ok a, record (x.1) { calls = x.1.calls + 1 })
              ]
            ])
    go w h (err e, w') k = h
    go w h (ok a, w') k = elim (Bool-cases (w'.outage w'.calls)) [
      | inl down ↦ rw (down, Post) h
      | inr up ↦ rw (up, Post) k
    ]

-- the two ways in which a coroutine ends
pub Post-cases :
    {A : Type 0} (Q : A → Database → Type 0) (E : Database → Type 0) (r : Result A × World)
    → Post Q E r
    → ((e : XoloException) × (r.0 ≡ err e) × E r.1.db) ⊎ ((a : A) × (r.0 ≡ ok a) × Q a r.1.db)
Post-cases Q E (ok a, w) h = inr (a, refl, h)
Post-cases Q E (err e, w) h = inl (e, refl, h)
