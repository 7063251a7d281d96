-- ===== src/Platform/Text.antt =====
-- Python's `str` methods. `strip` is written out; `lower`, `upper`, `casefold` and the matching of a
-- regular expression without regard to case rest on Unicode tables and are an argument.
use Prim.Native.Char.{Char, code}
use Prim.Native.String.{String}
use xolo_api.Base.{
  ℕ, zero, suc, ◌≡◌, refl, Bool, false, ◌&&◌, ◌||◌, leb, ◌==◌, if◌then◌else◌, true, Option, none,
  some,
}

pub record Unicode : Type 0 where
  pub lower : String → String
  pub upper : String → String
  pub casefold : String → String
  -- the text matches the other as a literal pattern, without regard to case
  pub same_ignoring_case : String → String → Bool

-- An instance over texts without letters that have two cases.
abbrev pub caseless : Unicode
caseless = record {
  lower = λ s. s;
  upper = λ s. s;
  casefold = λ s. s;
  same_ignoring_case = λ a b. a == b;
}

abbrev between : ℕ → ℕ → ℕ → Bool
between lo hi c = leb lo c && leb c hi

-- `str.isspace` of one code point
unfoldable pub is_space : ℕ → Bool
is_space c =
    between 9 13 c
    || between 28 32 c
    || between 133 133 c
    || between 160 160 c
    || between 5760 5760 c
    || between 8192 8202 c
    || between 8232 8233 c
    || between 8239 8239 c
    || between 8287 8287 c
    || between 12288 12288 c

unfoldable pub lstrip : String → String
unfolding is_space
lstrip String.[] = String.[]
lstrip (String.◌∷◌ c s) = let rest = lstrip s in if is_space (code c) then rest else String.◌∷◌ c s

abbrev drop_space : Char → String → String
drop_space c s = if s == "" && is_space (code c) then String.[] else String.◌∷◌ c s

unfoldable pub rstrip : String → String
unfolding is_space
rstrip String.[] = String.[]
rstrip (String.◌∷◌ c s) = drop_space c (rstrip s)

-- `s[:n]`
unfoldable pub prefix : ℕ → String → String
prefix zero s = String.[]
prefix (suc n) String.[] = String.[]
prefix (suc n) (String.◌∷◌ c s) = String.◌∷◌ c (prefix n s)

-- `s.endswith(suffix)`
unfoldable pub ends_with : String → String → Bool
ends_with suffix String.[] = suffix == ""
ends_with suffix (String.◌∷◌ c s) = suffix == String.◌∷◌ c s || ends_with suffix s

-- `len(s)`
unfoldable pub size : String → ℕ
size String.[] = zero
size (String.◌∷◌ c s) = suc (size s)

-- `s.isascii()`
unfoldable pub is_ascii : String → Bool
is_ascii String.[] = true
is_ascii (String.◌∷◌ c s) = leb (code c) 127 && is_ascii s

-- `hmac.compare_digest`, none where it raises a `TypeError` for a text outside ASCII
unfoldable pub compare_digest : String → String → Option Bool
unfolding is_ascii
compare_digest a b = if is_ascii a && is_ascii b then some (a == b) else none

-- `s.strip()`
unfoldable pub strip : String → String
unfolding lstrip rstrip
strip s = rstrip (lstrip s)

strip_test : strip "  a b  " ≡ "a b"
unfolding strip
strip_test = refl

-- the words of a text without space in front, one space between; `gap` is that space went before
unfoldable pub collapsed : Bool → String → String
unfolding is_space
collapsed gap String.[] = String.[]
collapsed gap (String.◌∷◌ c s) =
    let rest = collapsed (is_space (code c)) s in
    if is_space (code c)
    then rest
    else if gap
    then String.◌∷◌ " " (String.◌∷◌ c rest)
    else String.◌∷◌ c rest

-- `" ".join(text.strip().split())`
unfoldable pub one_spaced : String → String
unfolding collapsed lstrip
one_spaced s = collapsed false (lstrip s)
