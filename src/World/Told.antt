-- ===== src/World/Told.antt =====
-- What the value of a coroutine tells, whatever outages strike: of the database before the first write,
-- or of itself alone.
use xolo_api.Base.{◌≡◌, refl, ◌∙◌, Bool, true, false, Option, none, some}
use xolo_api.Errors.{XoloException}
use xolo_api.Exec.{Result, ok, err, Exec, pure, or_raise, raise_if, ◌>>=◌}
use xolo_api.World.{Database, World}
use xolo_api.World.Reads.{Reads, Tells}

-- a value that is returned has the property
abbrev pub Says : {A : Type 0} → (A → Type 0) → Result A → Type 0
Says R (ok a) = R a
Says R (err e) = Unit

-- so of every value that the coroutine returns
pub record Always {A : Type 0} (m : Exec World A) (R : A → Type 0) : Type 0 where
  pub at : (w : World) → Says R (m w).0

-- from the database `db`
pub record Told {A : Type 0} (db : Database) (m : Exec World A) (R : A → Type 0) : Type 0 where
  pub at : (w : World) → w.db ≡ db → Says R (m w).0

pub Always-pure : {A : Type 0} (a : A) (R : A → Type 0) → R a → Always (pure a) R
unfolding pure
Always-pure a R h = record { at = λ w. h }

pub Always-raise_if : (b : Bool) (e : XoloException) → Always (raise_if b e) (λ _. b ≡ false)
unfolding raise_if
Always-raise_if true e = record { at = λ w. tt }
Always-raise_if false e = record { at = λ w. refl }

pub Always-or_raise :
    {A : Type 0} (o : Option A) (e : XoloException) → Always (or_raise o e) (λ a. o ≡ some a)
unfolding or_raise
Always-or_raise none e = record { at = λ w. tt }
Always-or_raise (some a) e = record { at = λ w. refl }

pub Told-always :
    {A : Type 0} {db : Database} {m : Exec World A} {R : A → Type 0} → Always m R → Told db m R
Told-always h = record { at = λ w _. h.at w }

module _ {A B : Type 0} {m : Exec World A} {k : A → Exec World B} {R : B → Type 0} where
  pub Always-bind :
      {Q : A → Type 0} → Always m Q → ((a : A) → Q a → Always (k a) R) → Always (m >>= k) R
  unfolding ◌>>=◌
  Always-bind {Q} first rest = record { at = λ w. go (m w) (first.at w) }
    where
      go :
          (x : Result A × World)
          → Says Q x.0
          → let y : Result B × World = elim x.0 [ ok a ↦ k a x.1 | err e ↦ (err e, x.1) ] in
            Says R y.0
      go (ok a, w') h = (rest a h).at w'
      go (err e, w') h = tt

  -- the first call reads
  pub Told-bind :
      {db : Database} {Q : A → Database → Type 0}
      → Reads m Q
      → ((a : A) → Q a db → Told db (k a) R)
      → Told db (m >>= k) R
  unfolding ◌>>=◌
  Told-bind {db} {Q} first rest = record { at = λ w e. go w e (m w) (first.at w).0 (first.at w).1 }
    where
      go :
          (w : World)
          → w.db ≡ db
          → (x : Result A × World) → x.1.db ≡ w.db
          → Tells Q x.0 w.db
          → let y : Result B × World = elim x.0 [ ok a ↦ k a x.1 | err e ↦ (err e, x.1) ] in
            Says R y.0
      go w e (ok a, w') still q = (rest a (rw e at q)).at w' (still ∙ e)
      go w e (err x, w') still q = tt

  -- what follows may have written before
  pub Told-then :
      {db : Database} {Q : A → Type 0}
      → Told db m Q
      → ((a : A) → Q a → Always (k a) R)
      → Told db (m >>= k) R
  unfolding ◌>>=◌
  Told-then {Q = Q} first rest = record { at = λ w e. go (m w) (first.at w e) }
    where
      go :
          (x : Result A × World)
          → Says Q x.0
          → let y : Result B × World = elim x.0 [ ok a ↦ k a x.1 | err e ↦ (err e, x.1) ] in
            Says R y.0
      go (ok a, w') h = (rest a h).at w'
      go (err e, w') h = tt

-- nothing is known of the first value
pub Always-then :
    {A B : Type 0} (m : Exec World A) {k : A → Exec World B} {R : B → Type 0}
    → ((a : A) → Always (k a) R)
    → Always (m >>= k) R
Always-then m rest = Always-bind {Q = λ _. Unit {0}} (unknown m) (λ a _. rest a)
  where
    unknown : {A : Type 0} (m : Exec World A) → Always m (λ _. Unit {0})
    unknown {A} m = record { at = λ w. go (m w).0 }
      where
        go : (x : Result A) → Says (λ _. Unit {0}) x
        go (ok a) = tt
        go (err e) = tt
