-- ===== src/World/Reads.antt =====
-- A coroutine that only reads, also where an outage strikes, and what its value says of the
-- database: one rule for each way to build one.
use xolo_api.Base.{
  ◌≡◌, refl, sym, ◌∙◌, Bool, true, false, Option, none, some, if◌then◌else◌, Bool-cases, inl, inr,
}
use xolo_api.Errors.{XoloException}
use xolo_api.Exec.{Result, ok, err, Exec, pure, raise, or_raise, raise_if, recover, escapes, ◌>>=◌}
use xolo_api.World.{Database, World, query, query_uncaught}

abbrev pub Tells : {A : Type 0} → (A → Database → Type 0) → Result A → Database → Type 0
Tells R (ok a) db = R a db
Tells R (err e) db = Unit

-- what is told of a database is told of one that is equal
pub Tells-along :
    {A : Type 0} (R : A → Database → Type 0) (r : Result A) (db db' : Database)
    → db ≡ db'
    → Tells R r db
    → Tells R r db'
Tells-along R r db db' e h = rw (sym e) h

-- The database stays, and a value that is returned has the property.
pub record Reads {A : Type 0} (m : Exec World A) (R : A → Database → Type 0) : Type 0 where
  pub at : (w : World) → ((m w).1.db ≡ w.db) × Tells R (m w).0 w.db

-- nothing is said of the value
abbrev pub Anything : {A : Type 0} → A → Database → Type 0
Anything a db = Unit

module _ {A : Type 0} where
  pub Reads-pure :
      (a : A) (R : A → Database → Type 0) → ((db : Database) → R a db) → Reads (pure a) R
  unfolding pure
  Reads-pure a R f = record { at = λ w. (refl, f w.db) }

  pub Reads-raise : (e : XoloException) (R : A → Database → Type 0) → Reads (raise {A = A} e) R
  unfolding raise
  Reads-raise e R = record { at = λ w. (refl, tt) }

  pub Reads-or_raise : (o : Option A) (e : XoloException) → Reads (or_raise o e) (λ a _. o ≡ some a)
  unfolding or_raise
  Reads-or_raise none e = record { at = λ w. (refl, tt) }
  Reads-or_raise (some a) e = record { at = λ w. (refl, refl) }

  pub Reads-query : (f : Database → A) → Reads (query f) (λ a db. a ≡ f db)
  unfolding query
  Reads-query f = record {
    at = λ w. elim (Bool-cases (w.outage w.calls)) [
      | inl down ↦ rw (down, query, Tells) (refl, tt)
      | inr up ↦ rw (up, query, Tells) (refl, refl)
    ];
  }

  pub Reads-query_uncaught : (f : Database → A) → Reads (query_uncaught f) (λ a db. a ≡ f db)
  unfolding query_uncaught
  Reads-query_uncaught f = record {
    at = λ w. elim (Bool-cases (w.outage w.calls)) [
      | inl down ↦ rw (down, query_uncaught, Tells) (refl, tt)
      | inr up ↦ rw (up, query_uncaught, Tells) (refl, refl)
    ];
  }

  pub Reads-weaken :
      {m : Exec World A} {R Q : A → Database → Type 0}
      → Reads m R
      → ((a : A) (db : Database) → R a db → Q a db)
      → Reads m Q
  Reads-weaken {m} {R} {Q} r f = record { at = λ w. ((r.at w).0, go w (m w).0 (r.at w).1) }
    where
      go : (w : World) (x : Result A) → Tells R x w.db → Tells Q x w.db
      go w (ok a) h = f a w.db h
      go w (err e) h = tt

  pub Reads-recover :
      {m : Exec World A} {k : XoloException → Exec World A} {R : A → Database → Type 0}
      → Reads m R
      → ((e : XoloException) → Reads (k e) R)
      → Reads (recover m k) R
  unfolding recover
  Reads-recover {m} {k} {R} r rest = record { at = λ w. go w (m w) (r.at w).0 (r.at w).1 }
    where
      go :
          (w : World) (x : Result A × World)
          → x.1.db ≡ w.db
          → Tells R x.0 w.db
          → let y : Result A × World = elim x.0 [
            | ok a ↦ (ok a, x.1)
            | err e ↦ if escapes e then (err e, x.1) else k e x.1
          ] in
            (y.1.db ≡ w.db) × Tells R y.0 w.db
      go w (ok a, w') same h = (same, h)
      go w (err e, w') same h = elim (Bool-cases (escapes e)) [
        | inl out ↦ rw out (same, tt)
        | inr caught ↦
            let (still, tells) = (rest e).at w' in
            rw caught (still ∙ same, Tells-along R (k e w').0 w'.db w.db same tells)
      ]

pub Reads-raise_if : (b : Bool) (e : XoloException) → Reads (raise_if b e) (λ _ _. b ≡ false)
unfolding raise_if
Reads-raise_if true e = record { at = λ w. (refl, tt) }
Reads-raise_if false e = record { at = λ w. (refl, refl) }

pub Reads-bind :
    {A B : Type 0} {m : Exec World A} {k : A → Exec World B} {Q : A → Database → Type 0}
    (R : B → Database → Type 0)
    → Reads m Q
    → ((a : A) → Reads (k a) (λ b db. Q a db → R b db))
    → Reads (m >>= k) R
unfolding ◌>>=◌
Reads-bind {A} {B} {m} {k} {Q} R first rest = record {
  at = λ w. go w (m w) (first.at w).0 (first.at w).1;
}
  where
    use_it :
        (x : Result B) (a : A) (db : Database)
        → Q a db
        → Tells (λ b d. Q a d → R b d) x db
        → Tells R x db
    use_it (ok b) a db q h = h q
    use_it (err e) a db q h = tt

    go :
        (w : World) (x : Result A × World)
        → x.1.db ≡ w.db
        → Tells Q x.0 w.db
        → let y : Result B × World = elim x.0 [ ok a ↦ k a x.1 | err e ↦ (err e, x.1) ] in
          (y.1.db ≡ w.db) × Tells R y.0 w.db
    go w (ok a, w') same q =
        let (still, tells) = (rest a).at w' in
        (
          still ∙ same,
          use_it (k a w').0 a w.db q
              (Tells-along (λ b d. Q a d → R b d) (k a w').0 w'.db w.db same tells),
        )
    go w (err e, w') same q = (same, tt)

-- `if o.is_some: ... else: ...`
pub Reads-option :
    {A B : Type 0} (o : Option A) (n : Exec World B) (s : A → Exec World B)
    {R : B → Database → Type 0}
    → Reads n R
    → ((a : A) → Reads (s a) R)
    → Reads (elim o [ none ↦ n | some a ↦ s a ]) R
Reads-option none n s without given = without
Reads-option (some a) n s without given = given a
