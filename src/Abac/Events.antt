-- ===== src/Abac/Events.antt =====
-- `Location.matches`, `TimeWindow.matches` and `ABACEvent.matches` of xoloapi/abac/domain. Distances
-- (`geopy`), the reading of ISO texts and the time zone data are arguments. A test returns none where
-- Python raises a `TypeError` or an `OverflowError`, which the `except` lets through.
use Prim.Native.Char.{Char}
use xolo_api.Base.{
  String, ℕ, Bool, true, false, ◌&&◌, ◌||◌, Option, none, some, leb, ◌==◌, if◌then◌else◌,
}
use xolo_api.Platform.Text.{Unicode}
use xolo_api.Abac.Types.{
  MatcherVersion, TimeWindowMode, wildcard, datetime, time_of_day, date, GeoPoint, Location,
  TimeWindow, AccessRequest, Event,
}
use xolo_api.Abac.Pattern.{pattern_matches}

-- `datetime` and `zoneinfo`, none where they raise `ValueError`; the zone of a policy is a known one
pub record Calendar : Type 0 where
  -- the instant that a text names, read in the zone if it names none itself
  pub instant : String → String → Option ℕ
  -- the time of the day, and the date, of an instant in a zone
  pub time_at : String → ℕ → ℕ
  pub date_at : String → ℕ → ℕ
  pub time : String → Option ℕ
  pub date : String → Option ℕ
  -- whether `time.fromisoformat` of a text that it reads has a UTC offset
  pub has_offset : String → Bool
  -- `astimezone` to the zone raises `OverflowError` for the instant of the text
  pub overflows : String → String → Bool
  -- `datetime.fromisoformat(a) <= datetime.fromisoformat(b)`, none where that raises
  pub in_order : String → String → Option Bool
  -- `low <= value <= high` of floats
  pub in_range : String → String → String → Bool
  -- `geodesic(center, candidate).km <= radius`
  pub within : GeoPoint → GeoPoint → String → Bool

-- `a <= c <= b`
abbrev pub between : ℕ → ℕ → ℕ → Bool
between a b c = leb a c && leb c b

-- a window of the day may span midnight
abbrev pub in_day : ℕ → ℕ → ℕ → Bool
in_day s e c = if leb s e then between s e c else leb s c || leb c e

-- both bounds are read, or the `except` answers false
abbrev pub both : Option ℕ → Option ℕ → (ℕ → ℕ → Bool) → Bool
both (some a) (some b) f = f a b
both _ _ f = false

-- a bound with an offset does not compare with the time of the day, which has none: `TypeError`
abbrev pub both_times : Option ℕ → Option ℕ → Bool → (ℕ → ℕ → Bool) → Option Bool
both_times (some a) (some b) false f = some (f a b)
both_times (some a) (some b) true f = none
both_times none _ offset f = some false
both_times (some a) none offset f = some false

-- a bound that is given has the property
abbrev pub given : (String → Bool) → Option String → Bool
given test none = false
given test (some text) = test text

-- the text with `+00:00` for a `Z` at the end
abbrev pub with_offset : String → String
with_offset String.[] = String.[]
with_offset (String.◌∷◌ c s) =
    let rest = with_offset s in
    if s == "" && (String.◌∷◌ c s == "Z" || String.◌∷◌ c s == "z")
    then "+00:00"
    else String.◌∷◌ c rest

-- `fromisoformat` of a bound; `validate_bounds` leaves no bounded window without one
abbrev pub bound : (String → Option ℕ) → Option String → Option ℕ
bound read none = none
bound read (some text) = read text

-- the tests up to the one of the time, `a and ... and time and b`
unfoldable pub and_then : Bool → Option Bool → Bool → Option Bool
and_then false time rest = some false
and_then true none rest = none
and_then true (some time) rest = some (time && rest)

module _ (calendar : Calendar) where
  unfoldable pub location_matches : Location → Option GeoPoint → Bool
  location_matches location none = true
  location_matches location (some candidate) = elim location.center [
    | none ↦ true
    | some center ↦ calendar.within center candidate location.radius_km
  ]

  -- the three modes with bounds, at an instant
  unfoldable pub in_window :
      TimeWindowMode → Option String → Option String → String → ℕ → Option Bool
  in_window wildcard start end zone now = some true
  in_window datetime start end zone now = some (
      both (bound (calendar.instant zone) start) (bound (calendar.instant zone) end)
        (λ s e. between s e now))
  in_window time_of_day start end zone now =
      both_times (bound calendar.time start) (bound calendar.time end)
        (given calendar.has_offset start || given calendar.has_offset end)
        (λ s e. in_day s e (calendar.time_at zone now))
  in_window date start end zone now = some (
      both (bound calendar.date start) (bound calendar.date end)
        (λ s e. between s e (calendar.date_at zone now)))

  -- the candidate is read, or the `except` answers false, and brought to the zone
  unfoldable pub bounded : TimeWindow → String → Option ℕ → Bool → Option Bool
  unfolding in_window
  bounded window zone none overflow = some false
  bounded window zone (some now) true = none
  bounded window zone (some now) false = in_window window.mode window.start window.end zone now

  abbrev is_wildcard : TimeWindowMode → Bool
  is_wildcard wildcard = true
  is_wildcard _ = false

  -- a candidate without a zone is in UTC
  unfoldable pub time_matches : TimeWindow → String → Option String → Option Bool
  unfolding bounded
  time_matches window zone none = some true
  time_matches window zone (some candidate) = elim (is_wildcard window.mode) [
    | true ↦ some true
    | false ↦
        bounded window zone (calendar.instant "UTC" (with_offset candidate))
          (calendar.overflows zone (with_offset candidate))
  ]

  module _ ⦃unicode : Unicode⦄ (same : Char → Char → Bool) where
    unfoldable pub event_matches : AccessRequest → MatcherVersion → String → Event → Option Bool
    unfolding pattern_matches location_matches time_matches and_then
    event_matches request version zone event =
        and_then
          (pattern_matches same event.subject request.subject version
            && pattern_matches same event.resource request.resource version
            && location_matches event.location request.location)
          (time_matches event.time zone request.time)
          (pattern_matches same event.action request.action version)
