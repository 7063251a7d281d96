-- ===== src/Platform/Pages.antt =====
-- `PageResult` of xoloapi/shared/pagination.py, and the pages that `skip` and `limit` cut. Python
-- divides in floating point, which is exact enough for `math.ceil` below 2 ^ 53.
use native.Mathlib.Nat.{div-add-mod', mod-lt, zero-lt-suc}
use xolo_api.Base.{
  ℕ, zero, suc, ◌+◌, ◌-◌, ◌*◌, ◌/◌, ◌≤◌, ◌≡◌, refl, ap, ◌∙◌, List, [], ◌∷◌, length, take, drop, leb,
  if◌then◌else◌, arith,
}
use xolo_api.Platform.Mongo.{page_of}

pub record PageResult (A : Type 0) : Type 0 where
  pub items : List A
  pub total : ℕ
  pub page : ℕ
  pub size : ℕ

-- `math.ceil(total / size) if size > 0 else 0`
abbrev pub ceil_pages : ℕ → ℕ → ℕ
ceil_pages total zero = 0
ceil_pages total (suc s) = (total + s) / suc s

abbrev pub total_pages : {A : Type 0} → PageResult A → ℕ
total_pages r = ceil_pages r.total r.size

-- all that is listed stands on the pages, and no page is too many
pub enough_pages : (total s : ℕ) → total ≤ ceil_pages total (suc s) * suc s
enough_pages total s =
    omega (arith, div-add-mod' (total + s) (suc s), mod-lt (total + s) (zero-lt-suc s))

pub tight_pages : (total s : ℕ) → ceil_pages total (suc s) * suc s ≤ total + s
tight_pages total s =
    omega (arith, div-add-mod' (total + s) (suc s), mod-lt (total + s) (zero-lt-suc s))

-- how many of the listed items stand on a page, after `before` pages
abbrev pub size_on : ℕ → ℕ → ℕ → ℕ
size_on total before size = if leb (total - before * size) size then total - before * size else size

module _ {A : Type 0} where
  length-drop : (n : ℕ) (xs : List A) → length (drop n xs) ≡ length xs - n
  length-drop zero xs = omega arith
  length-drop (suc n) [] = omega arith
  length-drop (suc n) (x ∷ xs) = omega (arith, length-drop n xs)

  length-take :
      (n : ℕ) (xs : List A) → length (take n xs) ≡ (if leb (length xs) n then length xs else n)
  length-take zero [] = refl
  length-take zero (x ∷ xs) = ground arith
  length-take (suc n) [] = ground arith
  length-take (suc n) (x ∷ xs) = ground (arith, length-take n xs)

  pub length-page_of :
      (before s : ℕ) (xs : List A)
      → length (page_of (before * suc s) (suc s) xs) ≡ size_on (length xs) before (suc s)
  length-page_of before s xs =
      length-take (suc s) (drop (before * suc s) xs)
      ∙ ap (λ n. if leb n (suc s) then n else suc s) (length-drop (before * suc s) xs)
