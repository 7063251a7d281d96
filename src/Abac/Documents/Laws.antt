-- ===== src/Abac/Documents/Laws.antt =====
-- What is written is read back, where the validators accept it.
use xolo_api.Base.{
  ℕ, ◌≡◌, refl, ap, ◌∙◌, Bool, true, ◌&&◌, List, [], ◌∷◌, map, all, Option, none, some, arith,
}
use xolo_api.Abac.Types.{
  Effect, allow, deny, MatcherVersion, legacy_v1, glob_v2, TimeWindowMode, wildcard, datetime,
  time_of_day, date, GeoPoint, Event, Policy,
}
use xolo_api.Abac.Events.{Calendar}
use xolo_api.Abac.Documents.{
  effect_value, version_value, mode_value, effect_of, version_of, mode_of, event_to_doc, raw_mode,
  valid_radius, valid_window, valid_center, center_of, built, event_from_doc, events_from_docs,
  policy_of, policy_from_doc, policy_to_doc,
}

mode_back : (mode : TimeWindowMode) → mode_of (mode_value mode) ≡ some mode
mode_back wildcard = refl
mode_back datetime = refl
mode_back time_of_day = refl
mode_back date = refl

effect_back : (effect : Effect) → effect_of (effect_value effect) ≡ some effect
effect_back allow = refl
effect_back deny = refl

version_back : (version : MatcherVersion) → version_of (version_value version) ≡ some version
version_back legacy_v1 = refl
version_back glob_v2 = refl

center_back :
    (c : Option GeoPoint)
    → center_of
        (elim c [ none ↦ none | some p ↦ some p.lat ])
        (elim c [ none ↦ none | some p ↦ some p.lng ])
      ≡ c
center_back none = refl
center_back (some p) = refl

module _ (calendar : Calendar) where
  -- the validators accept the event
  abbrev pub is_valid : Event → Bool
  is_valid ev =
      valid_center calendar ev.location.center
      && (valid_radius calendar ev.location.radius_km
          && valid_window calendar ev.time.mode ev.time.start ev.time.end)

  event_back :
      (ev : Event) → is_valid ev ≡ true → event_from_doc calendar (event_to_doc ev) ≡ some ev
  unfolding event_from_doc event_to_doc built raw_mode
  event_back ev valid =
      ap
        (λ c.
          built calendar (event_to_doc ev) c ev.location.radius_km
            (mode_of (mode_value ev.time.mode)))
        (center_back ev.location.center)
      ∙ ap (built calendar (event_to_doc ev) ev.location.center ev.location.radius_km)
          (mode_back ev.time.mode)
      ∙ rw valid refl

  events_back :
      (evs : List Event)
      → all is_valid evs ≡ true
      → events_from_docs calendar (map event_to_doc evs) ≡ some evs
  unfolding events_from_docs
  events_back [] valid = refl
  events_back (ev ∷ evs) valid =
      rw (event_back ev (ground arith), events_back evs (ground arith)) refl

  -- A policy whose events the validators accept is read back from the document that a save writes,
  -- whatever the time.
  pub policy_from_doc-policy_to_doc :
      (now : ℕ) (policy : Policy)
      → all is_valid policy.events ≡ true
      → policy_from_doc calendar (policy_to_doc now policy) ≡ some policy
  unfolding policy_from_doc policy_to_doc policy_of
  policy_from_doc-policy_to_doc now policy valid =
      rw
        (
          effect_back policy.effect,
          events_back policy.events valid,
          version_back policy.matcher_version,
        )
        refl
