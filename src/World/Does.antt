-- ===== src/World/Does.antt =====
-- What a coroutine that writes returns and leaves where no outage strikes: one rule for each way to
-- build one.
use xolo_api.Base.{◌≡◌, refl, ap, ◌∙◌}
use xolo_api.Exec.{Result, ok, err, Exec, ◌>>=◌}
use xolo_api.World.{Database, World, IsCalm, command}
use xolo_api.World.Calm.{Yields}

-- The coroutine returns `f` of the database, makes `g` of it and leaves the outages alone.
pub record Does {A : Type 0} (m : Exec World A) (f : Database → A) (g : Database → Database)
    : Type 0 where
  pub at :
      (w : World)
      → IsCalm w
      → ((m w).0 ≡ ok (f w.db)) × ((m w).1.db ≡ g w.db) × ((m w).1.outage ≡ w.outage)

-- no outage strikes later either
pub still-IsCalm : (w w' : World) → w'.outage ≡ w.outage → IsCalm w → IsCalm w'
still-IsCalm w w' same calm n = ap (λ out. out n) same ∙ calm n

module _ {A : Type 0} where
  pub Does-reads : {m : Exec World A} {f : Database → A} → Yields m f → Does m f (λ db. db)
  Does-reads y = record { at = y.at }

  pub Does-command :
      (c : Database → A × Database) → Does (command c) (λ db. (c db).0) (λ db. (c db).1)
  unfolding command
  Does-command c = record { at = λ w calm. rw (calm w.calls, command) (refl, refl, refl) }

  -- the same, described otherwise
  pub Does-as :
      {m : Exec World A} {f f' : Database → A} {g g' : Database → Database}
      → ((db : Database) → f db ≡ f' db)
      → ((db : Database) → g db ≡ g' db)
      → Does m f g
      → Does m f' g'
  Does-as same_f same_g d = record {
    at = λ w calm. let (v, e, o) = d.at w calm in (v ∙ ap ok (same_f w.db), e ∙ same_g w.db, o);
  }

pub Does-bind :
    {A B : Type 0} (m : Exec World A) (f : Database → A) (g : Database → Database)
    (k : A → Exec World B) (f' : A → Database → B) (g' : A → Database → Database)
    → Does m f g
    → ((a : A) → Does (k a) (f' a) (g' a))
    → Does (m >>= k) (λ db. f' (f db) (g db)) (λ db. g' (f db) (g db))
unfolding ◌>>=◌
Does-bind {A} {B} m f g k f' g' first rest = record {
  at = λ w calm. go w (m w) (first.at w calm) calm;
}
  where
    go :
        (w : World) (r : Result A × World)
        → (r.0 ≡ ok (f w.db)) × (r.1.db ≡ g w.db) × (r.1.outage ≡ w.outage)
        → IsCalm w
        → let s : Result B × World = elim r.0 [ ok a ↦ k a r.1 | err e ↦ (err e, r.1) ] in
          (s.0 ≡ ok (f' (f w.db) (g w.db)))
          × (s.1.db ≡ g' (f w.db) (g w.db))
          × (s.1.outage ≡ w.outage)
    go w (r, w') (value, same, still) calm =
        let (v, d, o) = (rest (f w.db)).at w' (still-IsCalm w w' still calm) in
        rw value (v ∙ ap (λ db. ok (f' (f w.db) db)) same, d ∙ ap (g' (f w.db)) same, o ∙ still)
