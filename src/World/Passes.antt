-- ===== src/World/Passes.antt =====
-- Which test the value of a coroutine passes, for a coroutine whose answer does not depend on the world.
use xolo_api.Base.{
  ◌≡◌, refl, Bool, true, false, not, ◌&&◌, Option, none, some, arith, Bool-cases, inl, inr,
  if◌then◌else◌,
}
use xolo_api.Errors.{XoloException}
use xolo_api.Exec.{Result, ok, err, Exec, pure, or_raise, raise_if, recover, escapes, ◌>>=◌, ◌>>◌}
use xolo_api.World.{Database, World, query, command}

-- a value is returned, and passes the test
abbrev pub passes : {A : Type 0} → (A → Bool) → Result A → Bool
passes g (ok a) = g a
passes g (err e) = false

abbrev pub if_some : {A : Type 0} → (A → Bool) → Option A → Bool
if_some f none = false
if_some f (some a) = f a

pub record Passes {A : Type 0} (m : Exec World A) (g : A → Bool) (b : Bool) : Type 0 where
  pub at : (w : World) → passes g (m w).0 ≡ b

module _ {A : Type 0} (g : A → Bool) where
  pub Passes-pure : (a : A) → Passes (pure a) g (g a)
  unfolding pure
  Passes-pure a = record { at = λ w. refl }

  pub Passes-test :
      (t : Bool) (e : XoloException) (m : Exec World A) {b : Bool}
      → Passes m g b
      → Passes (raise_if t e >> m) g (not t && b)
  unfolding raise_if ◌>>=◌
  Passes-test true e m rest = record { at = λ w. refl }
  Passes-test false e m rest = record { at = λ w. rest.at w }

  -- a call whose failure is caught
  pub Passes-noted :
      (n : Exec World (Unit {0})) (m : Exec World A) {b : Bool}
      → ((w : World) → (n w).0 ≡ ok tt)
      → Passes m g b
      → Passes (n >> m) g b
  unfolding ◌>>=◌
  Passes-noted n m {b} noted rest = record { at = λ w. go (n w) (noted w) }
    where
      go :
          (x : Result (Unit {0}) × World)
          → x.0 ≡ ok tt
          → passes g (elim x.0 as (λ _. Result A × World) [ ok _ ↦ m x.1 | err e ↦ (err e, x.1) ]).0
            ≡ b
      go (ok _, w') is = rest.at w'
      go (err e, w') is = absurd (cc is)

module _ {A B : Type 0} (g : B → Bool) where
  pub Passes-option :
      (o : Option A) (e : XoloException) (k : A → Exec World B) (f : A → Bool)
      → ((a : A) → Passes (k a) g (f a))
      → Passes (or_raise o e >>= k) g (if_some f o)
  unfolding or_raise ◌>>=◌
  Passes-option none e k f rest = record { at = λ w. refl }
  Passes-option (some a) e k f rest = record { at = λ w. (rest a).at w }

  -- the rest is a test on the value of the first
  pub passes-bind :
      (m : Exec World A) (k : A → Exec World B) (f : A → Bool) (w : World)
      → ((a : A) → Passes (k a) g (f a))
      → passes g ((m >>= k) w).0 ≡ passes f (m w).0
  unfolding ◌>>=◌
  passes-bind m k f w rest = go (m w)
    where
      go :
          (x : Result A × World)
          → passes g
              (elim x.0 as (λ _. Result B × World) [ ok a ↦ k a x.1 | err e ↦ (err e, x.1) ]).0
            ≡ passes f x.0
      go (ok a, w') = (rest a).at w'
      go (err e, w') = refl

-- the value of a call that only reads, where no outage strikes
pub passes-query :
    {A : Type 0} (g : A → Bool) (f : Database → A) (w : World)
    → w.outage w.calls ≡ false
    → passes g (query f w).0 ≡ g (f w.db)
unfolding query
passes-query g f w up = rw (up, query) refl

-- a value, or an error that a `try` catches
abbrev is_mild : {A : Type 0} → Result A → Bool
is_mild (ok a) = true
is_mild (err e) = not (escapes e)

mild : {A : Type 0} (f : Database → A × Database) (w : World) → is_mild (command f w).0 ≡ true
unfolding command
mild f w = elim (Bool-cases (w.outage w.calls)) [
  | inl down ↦ rw (down, command) refl
  | inr up ↦ rw (up, command) refl
]

-- a write at best effort
pub recover-command :
    (f : Database → (Unit {0}) × Database) (w : World)
    → (recover (command f) (λ _. pure tt) w).0 ≡ ok tt
unfolding recover pure
recover-command f w = go (command f w) (mild f w)
  where
    go :
        (x : Result (Unit {0}) × World)
        → is_mild x.0 ≡ true
        → (elim x.0 as (λ _. Result (Unit {0}) × World) [
          | ok a ↦ (ok a, x.1)
          | err e ↦ if escapes e then (err e, x.1) else (ok tt, x.1)
        ]).0
          ≡ ok tt
    go (ok a, w') h = refl
    go (err e, w') h = elim (Bool-cases (escapes e)) [
      | inl out ↦ absurd (ground arith)
      | inr caught ↦ rw caught refl
    ]
