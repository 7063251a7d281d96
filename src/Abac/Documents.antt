-- ===== src/Abac/Documents.antt =====
-- How `MongoABACRepository` of xoloapi/abac/infrastructure/mongo_abac_repository.py writes policies
-- and reads them, and the validators of xoloapi/abac/domain/value_objects.py that run when it does.
-- What a validator refuses is none.
pub mod Laws
use xolo_api.Base.{
  String, ℕ, Bool, true, false, ◌&&◌, ◌||◌, List, [], ◌∷◌, map, Option, none, some, leb, ◌==◌,
  if◌then◌else◌,
}
use xolo_api.Platform.Collections.{is_some}
use xolo_api.Abac.Types.{
  Effect, allow, deny, MatcherVersion, legacy_v1, glob_v2, TimeWindowMode, wildcard, datetime,
  time_of_day, date, GeoPoint, Location, TimeWindow, Event, Policy, EventDoc, PolicyDoc,
}
use xolo_api.Abac.Events.{Calendar}

-- the values of the enumerations

abbrev pub effect_value : Effect → String
effect_value allow = "ALLOW"
effect_value deny = "DENY"

abbrev pub version_value : MatcherVersion → String
version_value legacy_v1 = "legacy_v1"
version_value glob_v2 = "glob_v2"

abbrev pub mode_value : TimeWindowMode → String
mode_value wildcard = "wildcard"
mode_value datetime = "datetime"
mode_value time_of_day = "time_of_day"
mode_value date = "date"

abbrev pub effect_of : String → Option Effect
effect_of v = if v == "ALLOW" then some allow else if v == "DENY" then some deny else none

abbrev pub version_of : String → Option MatcherVersion
version_of v =
    if v == "legacy_v1" then some legacy_v1 else if v == "glob_v2" then some glob_v2 else none

abbrev pub mode_of : String → Option TimeWindowMode
mode_of v =
    if v == "wildcard"
    then some wildcard
    else if v == "datetime"
    then some datetime
    else if v == "time_of_day"
    then some time_of_day
    else if v == "date"
    then some date
    else none

-- `d.get(key, default)`
abbrev pub or_default : {A : Type 0} → A → Option A → A
or_default default none = default
or_default default (some a) = a

-- the value is true of an optional text
abbrev is_true : Option String → Bool
is_true none = false
is_true (some v) = if v == "" then false else true

unfoldable pub event_to_doc : Event → EventDoc
event_to_doc ev = record {
  event_id = ev.event_id;
  subject = ev.subject;
  resource = ev.resource;
  location_lat = elim ev.location.center [ none ↦ none | some center ↦ some center.lat ];
  location_lng = elim ev.location.center [ none ↦ none | some center ↦ some center.lng ];
  location_radius_km = some ev.location.radius_km;
  time_mode = some (mode_value ev.time.mode);
  time_start = ev.time.start;
  time_end = ev.time.end;
  action = ev.action;
}

-- the mode of a document, where older ones have none
unfoldable pub raw_mode : EventDoc → String
raw_mode d = elim d.time_mode [
  | some mode ↦ mode
  | none ↦ if is_true d.time_start || is_true d.time_end then "datetime" else "wildcard"
]

abbrev pub center_of : Option String → Option String → Option GeoPoint
center_of (some lat) (some lng) = some (record { lat = lat; lng = lng })
center_of _ _ = none

abbrev pub cons_read : Option Event → Option (List Event) → Option (List Event)
cons_read none es = none
cons_read (some e) none = none
cons_read (some e) (some es) = some (e ∷ es)

unfoldable pub policy_of :
    PolicyDoc → Option Effect → Option (List Event) → Option MatcherVersion → Option Policy
policy_of doc (some effect) (some events) (some version) = some (record {
  account_id = doc.account_id;
  policy_id = doc.policy_id;
  name = doc.name;
  effect = effect;
  events = events;
  matcher_version = version;
  timezone = or_default "UTC" doc.timezone;
})
policy_of doc _ _ _ = none

abbrev pub cons_policy : Option Policy → Option (List Policy) → Option (List Policy)
cons_policy none ps = none
cons_policy (some p) none = none
cons_policy (some p) (some ps) = some (p ∷ ps)

module _ (calendar : Calendar) where
  -- the validators of `GeoPoint`
  unfoldable pub valid_point : GeoPoint → Bool
  valid_point p = calendar.in_range "-90" "90" p.lat && calendar.in_range "-180" "180" p.lng

  -- the validator of `Location`
  unfoldable pub valid_radius : String → Bool
  valid_radius radius = calendar.in_range "0.1" "5.0" radius

  -- the order that `validate_bounds` asks for, by the mode
  unfoldable pub valid_order : TimeWindowMode → String → String → Bool
  valid_order wildcard start end = true
  valid_order datetime start end = or_default false (calendar.in_order start end)
  valid_order time_of_day start end = is_some (calendar.time start) && is_some (calendar.time end)
  valid_order date start end = elim (calendar.date start) [
    | none ↦ false
    | some s ↦ elim (calendar.date end) [ none ↦ false | some e ↦ leb s e ]
  ]

  -- `TimeWindow.validate_bounds`
  unfoldable pub valid_window : TimeWindowMode → Option String → Option String → Bool
  unfolding valid_order
  valid_window wildcard none none = true
  valid_window wildcard _ _ = false
  valid_window mode (some start) (some end) = valid_order mode start end
  valid_window mode _ _ = false

  abbrev pub valid_center : Option GeoPoint → Bool
  valid_center none = true
  valid_center (some p) = valid_point p

  -- `None` for the radius is refused, an absent one reads as 1.0
  unfoldable pub built : EventDoc → Option GeoPoint → String → Option TimeWindowMode → Option Event
  unfolding valid_point valid_radius valid_window
  built d center radius none = none
  built d center radius (some mode) =
      if valid_center center && (valid_radius radius && valid_window mode d.time_start d.time_end)
      then some (record {
        event_id = d.event_id;
        subject = d.subject;
        resource = d.resource;
        location = record { center = center; radius_km = radius };
        time = record { mode = mode; start = d.time_start; end = d.time_end };
        action = d.action;
      })
      else none

  unfoldable pub event_from_doc : EventDoc → Option Event
  unfolding built raw_mode
  event_from_doc d =
      built d (center_of d.location_lat d.location_lng) (or_default "1.0" d.location_radius_km)
        (mode_of (raw_mode d))

  -- `[cls._event_from_doc(e) for e in ...]`
  unfoldable pub events_from_docs : List EventDoc → Option (List Event)
  unfolding event_from_doc
  events_from_docs [] = some []
  events_from_docs (d ∷ ds) = cons_read (event_from_doc d) (events_from_docs ds)

  unfoldable pub policy_from_doc : PolicyDoc → Option Policy
  unfolding policy_of events_from_docs
  policy_from_doc doc =
      policy_of doc (effect_of doc.effect) (events_from_docs doc.events)
        (version_of (or_default "legacy_v1" doc.matcher_version))

  -- `[self._policy_from_doc(d) for d in docs]`
  unfoldable pub policies_from_docs : List PolicyDoc → Option (List Policy)
  unfolding policy_from_doc
  policies_from_docs [] = some []
  policies_from_docs (d ∷ ds) = cons_policy (policy_from_doc d) (policies_from_docs ds)

-- the document that `save` builds at a time
unfoldable pub policy_to_doc : ℕ → Policy → PolicyDoc
unfolding event_to_doc
policy_to_doc now policy = record {
  policy_id = policy.policy_id;
  account_id = policy.account_id;
  name = policy.name;
  effect = effect_value policy.effect;
  events = map event_to_doc policy.events;
  matcher_version = some (version_value policy.matcher_version);
  timezone = some policy.timezone;
  created_at = some now;
  updated_at = some now;
}
