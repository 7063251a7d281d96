-- ===== src/World/Ends.antt =====
-- What a coroutine that writes leaves in the database, however it ends: one rule for each way to
-- build one. The first calls read, and what they returned is known to the rest.
use xolo_api.Base.{if◌then◌else◌, ◌≡◌, refl, sym, ◌∙◌, Bool-cases, inl, inr}
use xolo_api.Errors.{XoloException}
use xolo_api.Exec.{Result, ok, err, Exec, from_result, recover, escapes, ◌>>=◌}
use xolo_api.World.{Database, World, command}
use xolo_api.World.Reads.{Reads, Tells, Anything}

-- From the database `db` the coroutine leaves one with the property.
pub record Ends {A : Type 0} (db : Database) (m : Exec World A) (C : Database → Type 0)
    : Type 0 where
  pub at : (w : World) → w.db ≡ db → C (m w).1.db

module _ {A : Type 0} {db : Database} {C : Database → Type 0} where
  pub Ends-reads : {m : Exec World A} {R : A → Database → Type 0} → C db → Reads m R → Ends db m C
  Ends-reads {m} same r = record { at = λ w e. rw (sym ((r.at w).0 ∙ e)) at same }

  pub Ends-command : (f : Database → A × Database) → C db → C (f db).1 → Ends db (command f) C
  unfolding command
  Ends-command f same written = record {
    at = λ w e. elim (Bool-cases (w.outage w.calls)) [
      | inl down ↦ rw (down, command, e) same
      | inr up ↦ rw (up, command, e) written
    ];
  }

module _ {A : Type 0} {db : Database} {C : Database → Type 0} where
  -- the way on after a failure only reads
  pub Ends-recover :
      {m : Exec World A} {k : XoloException → Exec World A}
      → Ends db m C
      → ((e : XoloException) → Reads (k e) Anything)
      → Ends db (recover m k) C
  unfolding recover
  Ends-recover {m} {k} first rest = record { at = λ w e. go (m w) (first.at w e) }
    where
      go :
          (x : Result A × World)
          → C x.1.db
          → let y : Result A × World = elim x.0 [
            | ok a ↦ (ok a, x.1)
            | err e ↦ if escapes e then (err e, x.1) else k e x.1
          ] in
            C y.1.db
      go (ok a, w') h = h
      go (err e, w') h = elim (Bool-cases (escapes e)) [
        | inl out ↦ rw out h
        | inr kept ↦ rw kept (rw (sym ((rest e).at w').0) at h)
      ]

module _ {A B : Type 0} {db : Database} {C : Database → Type 0} where
  pub Ends-bind :
      {m : Exec World A} {k : A → Exec World B} {Q : A → Database → Type 0}
      → C db
      → Reads m Q
      → ((a : A) → Q a db → Ends db (k a) C)
      → Ends db (m >>= k) C
  unfolding ◌>>=◌
  Ends-bind {m} {k} {Q} same first rest = record {
    at = λ w e. go w e (m w) (first.at w).0 (first.at w).1;
  }
    where
      go :
          (w : World)
          → w.db ≡ db
          → (x : Result A × World) → x.1.db ≡ w.db
          → Tells Q x.0 w.db
          → let y : Result B × World = elim x.0 [ ok a ↦ k a x.1 | err e ↦ (err e, x.1) ] in
            C y.1.db
      go w e (ok a, w') still q = (rest a (rw e at q)).at w' (still ∙ e)
      go w e (err x, w') still q = rw (sym (still ∙ e)) at same

  pub Ends-result :
      (r : Result A) {k : A → Exec World B}
      → C db
      → ((a : A) → r ≡ ok a → Ends db (k a) C)
      → Ends db (from_result r >>= k) C
  unfolding from_result ◌>>=◌
  Ends-result (ok a) same rest = record { at = λ w e. (rest a refl).at w e }
  Ends-result (err x) same rest = record { at = λ w e. rw (sym e) at same }

  -- what is done after the write only reads
  pub Ends-then :
      {m : Exec World A} {k : A → Exec World B}
      → Ends db m C
      → ((a : A) → Reads (k a) Anything)
      → Ends db (m >>= k) C
  unfolding ◌>>=◌
  Ends-then {m} {k} first rest = record { at = λ w e. go (m w) (first.at w e) }
    where
      go :
          (x : Result A × World)
          → C x.1.db
          → let y : Result B × World = elim x.0 [ ok a ↦ k a x.1 | err e ↦ (err e, x.1) ] in
            C y.1.db
      go (ok a, w') h = rw (sym ((rest a).at w').0) at h
      go (err x, w') h = h
