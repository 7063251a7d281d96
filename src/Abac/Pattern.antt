-- ===== src/Abac/Pattern.antt =====
-- `pattern_matches` of xoloapi/abac/domain/value_objects.py. The regular expression of a glob is the
-- pattern with `.*` for each `*`, between `^` and `$`: a dot takes any character but a line feed, and
-- the dollar also stands before a line feed at the end. That two characters are the same without
-- regard to case rests on Unicode tables and is an argument.
use Prim.Native.Char.{Char, code}
use xolo_api.Base.{
  String, ℕ, ◌≡◌, ◌↔◌, inl, inr, Bool, true, false, not, ◌&&◌, ◌||◌, ◌==◌, if◌then◌else◌, arith,
  or_cases, and_left, and_right, Bool-cases,
}
use xolo_api.Platform.Text.{Unicode}
use xolo_api.Abac.Types.{MatcherVersion, legacy_v1, glob_v2}

abbrev equal : ℕ → ℕ → Bool
equal m n = elim (Prim.Native.Nat.compare m n) [ Prim.Native.Nat.Ordering.eq ↦ true | _ ↦ false ]

abbrev pub is_star : Char → Bool
is_star c = equal (code c) 42

abbrev pub is_line_feed : Char → Bool
is_line_feed c = equal (code c) 10

-- `$`
abbrev pub at_end : String → Bool
at_end String.[] = true
at_end (String.◌∷◌ c s) = is_line_feed c && s == ""

module _ (same : Char → Char → Bool) where
  -- what `.*` may take before the rest of the pattern is tried
  unfoldable pub after_star : (String → Bool) → String → Bool
  after_star rest String.[] = rest String.[]
  after_star rest (String.◌∷◌ c s) =
      rest (String.◌∷◌ c s) || (not (is_line_feed c) && after_star rest s)

  abbrev literal : (String → Bool) → Char → String → Bool
  literal rest c String.[] = false
  literal rest c (String.◌∷◌ d s) = same c d && rest s

  unfoldable pub glob : String → String → Bool
  unfolding after_star
  glob String.[] s = at_end s
  glob (String.◌∷◌ c p) s =
      let rest = glob p in if is_star c then after_star rest s else literal rest c s

  -- The candidates of a pattern, by the characters that each of its own takes.
  pub data Matches : String → String → Type 0 where
    done : {s : String} → at_end s ≡ true → Matches String.[] s
    take :
        {c d : Char} {p s : String}
        → is_star c ≡ false
        → same c d ≡ true
        → Matches p s
        → Matches (String.◌∷◌ c p) (String.◌∷◌ d s)
    skip : {c : Char} {p s : String} → is_star c ≡ true → Matches p s → Matches (String.◌∷◌ c p) s
    more :
        {c d : Char} {p s : String}
        → is_star c ≡ true
        → is_line_feed d ≡ false
        → Matches (String.◌∷◌ c p) s
        → Matches (String.◌∷◌ c p) (String.◌∷◌ d s)

  starred :
      (c : Char) (p s : String)
      → is_star c ≡ true
      → ((t : String) → glob p t ≡ true → Matches p t)
      → after_star (glob p) s ≡ true
      → Matches (String.◌∷◌ c p) s
  unfolding after_star
  starred c p String.[] star sound h = skip star (sound String.[] h)
  starred c p (String.◌∷◌ d s) star sound h = elim (or_cases (glob p (String.◌∷◌ d s)) _ h) [
    | inl now ↦ skip star (sound (String.◌∷◌ d s) now)
    | inr later ↦
        more star (ground (arith, later)) (
          starred c p s star sound (and_right (not (is_line_feed d)) (after_star (glob p) s) later))
  ]

  lettered :
      (c : Char) (p s : String)
      → is_star c ≡ false
      → ((t : String) → glob p t ≡ true → Matches p t)
      → literal (glob p) c s ≡ true
      → Matches (String.◌∷◌ c p) s
  lettered c p String.[] plain sound k = absurd (cc k)
  lettered c p (String.◌∷◌ d t) plain sound k =
      take plain (and_left (same c d) (glob p t) k) (sound t (and_right (same c d) (glob p t) k))

  glob_sound : (p s : String) → glob p s ≡ true → Matches p s
  unfolding glob
  glob_sound String.[] s h = done h
  glob_sound (String.◌∷◌ c p) s h = elim (Bool-cases (is_star c)) [
    | inl star ↦ starred c p s star (glob_sound p) (rw star at h)
    | inr plain ↦ lettered c p s plain (glob_sound p) (rw plain at h)
  ]

  after_star-now : (rest : String → Bool) (s : String) → rest s ≡ true → after_star rest s ≡ true
  unfolding after_star
  after_star-now rest String.[] h = h
  after_star-now rest (String.◌∷◌ c s) h = ground (arith, h)

  glob_complete : {p s : String} → Matches p s → glob p s ≡ true
  unfolding glob
  glob_complete (done h) = h
  glob_complete (take {c} {d} {p} {s} plain h m) = rw plain (ground (arith, h, glob_complete m))
  glob_complete (skip {c} {p} {s} star m) = rw star (after_star-now (glob p) s (glob_complete m))
  glob_complete (more {c} {d} {p} {s} star h m) =
      let k = glob_complete m in let l = rw star at k in rw star (ground (arith, h, l))

  -- A glob accepts exactly the candidates that its characters can take one after the other.
  pub glob-Matches : (p s : String) → (glob p s ≡ true) ↔ Matches p s
  glob-Matches p s = (glob_sound p s, glob_complete)

module _ ⦃unicode : Unicode⦄ (same : Char → Char → Bool) where
  unfoldable pub pattern_matches : String → String → MatcherVersion → Bool
  unfolding glob
  pattern_matches pattern candidate legacy_v1 =
      pattern == "*" || unicode.casefold pattern == unicode.casefold candidate
  pattern_matches pattern candidate glob_v2 = glob same pattern candidate
