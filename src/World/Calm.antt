-- ===== src/World/Calm.antt =====
-- What a coroutine that only reads returns where no outage strikes: one rule for each way to build one.
use xolo_api.Base.{Bool, false, Option, some, ◌≡◌, refl, ap, ◌∙◌}
use xolo_api.Errors.{XoloException}
use xolo_api.Exec.{Result, ok, err, Exec, pure, or_raise, raise_if, ◌>>=◌}
use xolo_api.World.{Database, World, IsCalm, query}

-- The coroutine returns `f` of the database, and leaves the database and the outages alone.
pub record Yields {A : Type 0} (m : Exec World A) (f : Database → A) : Type 0 where
  pub at :
      (w : World)
      → IsCalm w
      → ((m w).0 ≡ ok (f w.db)) × ((m w).1.db ≡ w.db) × ((m w).1.outage ≡ w.outage)

module _ {A : Type 0} where
  pub Yields-pure : (a : A) → Yields (pure a) (λ _. a)
  unfolding pure
  Yields-pure a = record { at = λ w calm. (refl, refl, refl) }

  pub Yields-query : (f : Database → A) → Yields (query f) f
  unfolding query
  Yields-query f = record { at = λ w calm. rw (calm w.calls, query) (refl, refl, refl) }

-- the same value, described otherwise
pub Yields-as :
    {A : Type 0} {m : Exec World A} {f g : Database → A}
    → ((db : Database) → f db ≡ g db)
    → Yields m f
    → Yields m g
Yields-as same y = record {
  at = λ w calm. let (v, d, o) = y.at w calm in (v ∙ ap ok (same w.db), d, o);
}

pub Yields-raise_if : (b : Bool) (e : XoloException) → b ≡ false → Yields (raise_if b e) (λ _. tt)
unfolding raise_if
Yields-raise_if b e h = record { at = λ w calm. rw (h, raise_if) (refl, refl, refl) }

pub Yields-or_raise :
    {A : Type 0} (o : Option A) (e : XoloException) (a : A)
    → o ≡ some a
    → Yields (or_raise o e) (λ _. a)
unfolding or_raise
Yields-or_raise o e a h = record { at = λ w calm. rw (h, or_raise) (refl, refl, refl) }

pub Yields-bind :
    {A B : Type 0} (m : Exec World A) (f : Database → A) (k : A → Exec World B)
    (g : A → Database → B)
    → Yields m f
    → ((a : A) → Yields (k a) (g a))
    → Yields (m >>= k) (λ db. g (f db) db)
unfolding ◌>>=◌
Yields-bind {A} {B} m f k g y z = record { at = λ w calm. go w (m w) (y.at w calm) calm }
  where
    go :
        (w : World) (r : Result A × World)
        → (r.0 ≡ ok (f w.db)) × (r.1.db ≡ w.db) × (r.1.outage ≡ w.outage)
        → IsCalm w
        → let s : Result B × World = elim r.0 [ ok a ↦ k a r.1 | err e ↦ (err e, r.1) ] in
          (s.0 ≡ ok (g (f w.db) w.db)) × (s.1.db ≡ w.db) × (s.1.outage ≡ w.outage)
    go w (r, w') (value, same, still) calm =
        let (v, d, o) = (z (f w.db)).at w' (λ n. ap (λ out. out n) still ∙ calm n) in
        rw value (v ∙ ap (λ db. ok (g (f w.db) db)) same, d ∙ same, o ∙ still)

-- what a coroutine returns that goes on with a value that is known
pub bind-value :
    {A B : Type 0} (m : Exec World A) (f : Database → A) (k : A → Exec World B) (r : Result B)
    (w : World)
    → Yields m f
    → IsCalm w
    → ((w' : World) → w'.db ≡ w.db → IsCalm w' → (k (f w.db) w').0 ≡ r)
    → ((m >>= k) w).0 ≡ r
unfolding ◌>>=◌
bind-value {A} {B} m f k r w y calm rest = go (m w) (y.at w calm)
  where
    go :
        (x : Result A × World)
        → (x.0 ≡ ok (f w.db)) × (x.1.db ≡ w.db) × (x.1.outage ≡ w.outage)
        → let s : Result B × World = elim x.0 [ ok a ↦ k a x.1 | err e ↦ (err e, x.1) ] in s.0 ≡ r
    go (x, w') (value, same, still) =
        rw value (rest w' same (λ n. ap (λ out. out n) still ∙ calm n))
