-- ===== src/Exec.antt =====
-- A coroutine of the services and repositories: it reads and writes the world, and returns a
-- value or an error (`Ok` and `Err` of the `option` package; an `if r.is_err: return r` is the
-- bind). What was written before an error stays written.
use xolo_api.Base.{Bool, true, false, Option, none, some, if◌then◌else◌}
use xolo_api.Errors.{XoloException, uncaught}

pub data Result {ℓ} (A : Type ℓ) : Type ℓ where
  ok : A → Result A
  err : XoloException → Result A

abbrev pub Exec {ℓ} : Type ℓ → Type ℓ → Type ℓ
Exec S A = S → Result A × S

module _ {ℓ} {S A : Type ℓ} where
  unfoldable pub pure : A → Exec S A
  pure a s = (ok a, s)

  unfoldable pub raise : XoloException → Exec S A
  raise e s = (err e, s)

  -- `if opt.is_none: return Err(e)`
  unfoldable pub or_raise : Option A → XoloException → Exec S A
  or_raise none e s = (err e, s)
  or_raise (some a) e s = (ok a, s)

-- a `Result` that a function of the domain returned: `if r.is_err: return r`
unfoldable pub from_result {ℓ} : {S A : Type ℓ} → Result A → Exec S A
from_result r s = (r, s)

abbrev pub escapes : XoloException → Bool
escapes uncaught = true
escapes _ = false

-- `if r.is_err:` with a way on; a Python exception that escapes is no `Err`
unfoldable pub recover {ℓ} : {S A : Type ℓ} → Exec S A → (XoloException → Exec S A) → Exec S A
recover m handler s =
    let (r, s') = m s in
    elim r [ ok a ↦ (ok a, s') | err e ↦ if escapes e then (err e, s') else handler e s' ]

-- the outcome as a value; a Python exception that escapes is no `Err`
unfoldable pub attempt {ℓ} : {S A : Type ℓ} → Exec S A → Exec S (Result A)
attempt m s =
    let (r, s') = m s in
    elim r [ ok a ↦ (ok (ok a), s') | err e ↦ if escapes e then (err e, s') else (ok (err e), s') ]

-- `if b: return Err(e)`
unfoldable pub raise_if {ℓ} : {S : Type ℓ} → Bool → XoloException → Exec S (Unit {ℓ})
raise_if true e s = (err e, s)
raise_if false e s = (ok tt, s)

infixl 5 ◌>>=◌ ◌>>◌
-- opening this opens the actions above too
unfoldable pub ◌>>=◌ {ℓ} : {S A B : Type ℓ} → Exec S A → (A → Exec S B) → Exec S B
unfolding pure raise or_raise raise_if from_result recover attempt
◌>>=◌ m f s = let (r, s') = m s in elim r [ ok a ↦ f a s' | err e ↦ (err e, s') ]

abbrev pub ◌>>◌ {ℓ} : {S A B : Type ℓ} → Exec S A → Exec S B → Exec S B
m >> k = m >>= λ _. k
