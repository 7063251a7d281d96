-- ===== src/Rbac/Permission.antt =====
-- `RBACPermission` of xoloapi/rbac/domain/value_objects.py. The pattern `^[^:\s]+:[^:\s]+$` with
-- `fullmatch` is two words, neither empty, without colon and white space, joined by a colon.
use Prim.Native.Char.{Char, code}
use Prim.Native.String.{◌++◌ as concat}
use xolo_api.Base.{
  String, ℕ, ◌≡◌, refl, Bool, true, false, not, ◌&&◌, ◌||◌, Option, none, some, ◌==◌, if◌then◌else◌,
  arith, ◌↔◌, Bool-cases, Option-cases, sym, inl, inr,
}
use text.Mathlib.TextLemmas.{nil-append, cons-append}
use xolo_api.Platform.Text.{is_space}

pub record RbacPermission : Type 0 where
  pub resource_type : String
  pub action : String

-- the code point of `:`
abbrev colon : ℕ
colon = 58

abbrev equal : ℕ → ℕ → Bool
equal m n = elim (Prim.Native.Nat.compare m n) [ Prim.Native.Nat.Ordering.eq ↦ true | _ ↦ false ]

-- `[^:\s]`
unfoldable pub is_word : Char → Bool
is_word c = not (equal (code c) colon) && not (is_space (code c))

-- `[^:\s]+`
unfoldable pub all_word : String → Bool
unfolding is_word
all_word String.[] = true
all_word (String.◌∷◌ c s) = is_word c && all_word s

-- `s.split(":", 1)`: the text before and after the first colon
unfoldable pub split_colon : String → Option (String × String)
split_colon String.[] = none
split_colon (String.◌∷◌ c s) =
    let rest = split_colon s in
    if equal (code c) colon
    then some (String.[], s)
    else elim rest [ none ↦ none | some parts ↦ some (String.◌∷◌ c parts.0, parts.1) ]

abbrev pub is_part : String → Bool
is_part s = not (s == "") && all_word s

-- none where the source raises `ValueError`
unfoldable pub from_string : String → Option RbacPermission
unfolding split_colon all_word
from_string s = elim (split_colon s) [
  | none ↦ none
  | some parts ↦
      if is_part parts.0 && is_part parts.1
      then some (record { resource_type = parts.0; action = parts.1 })
      else none
]

unfoldable pub to_string : RbacPermission → String
to_string p = concat p.resource_type (concat ":" p.action)

-- `self.matches(required)`
unfoldable pub matches : RbacPermission → RbacPermission → Bool
matches p required =
    (p.resource_type == "*" || p.resource_type == required.resource_type)
    && (p.action == "*" || p.action == required.action)

split_word :
    (a b : String) → all_word a ≡ true → split_colon (concat a (concat ":" b)) ≡ some (a, b)
unfolding split_colon all_word is_word
split_word String.[] b h =
    rw (nil-append (concat ":" b), cons-append ":" String.[] b, nil-append b) refl
split_word (String.◌∷◌ c s) b h =
    rw (cons-append c s (concat ":" b)) (ground (arith, split_word s b))

from_string-parts :
    (s : String) (p : RbacPermission)
    → from_string s ≡ some p
    → (is_part p.resource_type && is_part p.action) ≡ true
unfolding from_string
from_string-parts s p h = elim (Option-cases (split_colon s)) [
  | inl nothing ↦ let k = rw (nothing, from_string) at h in absurd (cc k)
  | inr ((a, b), found) ↦
      let k = rw (found, from_string) at h in
      elim (Bool-cases (is_part a && is_part b)) [
        | inl good ↦
            let made : record { resource_type = a; action = b } ≡ p = ground (arith, k, good) in
            rw (sym made) good
        | inr bad ↦ let l = rw bad at k in absurd (cc l)
      ]
]

-- Printing a permission and parsing the text again gives the permission back exactly when its two
-- parts are nonempty words without colon and white space.
pub from_string-to_string :
    (p : RbacPermission)
    → (from_string (to_string p) ≡ some p) ↔ ((is_part p.resource_type && is_part p.action) ≡ true)
unfolding from_string to_string
from_string-to_string p = (
  from_string-parts (to_string p) p,
  λ h. rw (from_string, split_word p.resource_type p.action (ground (arith, h)), h) refl,
)
