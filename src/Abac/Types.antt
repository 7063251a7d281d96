-- ===== src/Abac/Types.antt =====
-- xoloapi/abac/domain/value_objects.py and aggregates.py. A float is kept as its text, since only
-- `geopy` reads it. Time stamps are left out.
use xolo_api.Base.{String, ℕ, Bool, List, Option}

pub data Effect : Type 0 where
  allow deny : Effect

pub data MatcherVersion : Type 0 where
  legacy_v1 glob_v2 : MatcherVersion

pub data TimeWindowMode : Type 0 where
  wildcard datetime time_of_day date : TimeWindowMode

pub record GeoPoint : Type 0 where
  pub lat : String
  pub lng : String

pub record Location : Type 0 where
  pub center : Option GeoPoint
  pub radius_km : String

pub record TimeWindow : Type 0 where
  pub mode : TimeWindowMode
  pub start : Option String
  pub end : Option String

pub record AccessRequest : Type 0 where
  pub subject : String
  pub resource : String
  pub location : Option GeoPoint
  pub time : Option String
  pub action : String

pub record Event : Type 0 where
  pub event_id : String
  pub subject : String
  pub resource : String
  pub location : Location
  pub time : TimeWindow
  pub action : String

pub record Policy : Type 0 where
  pub account_id : String
  pub policy_id : String
  pub name : String
  pub effect : Effect
  pub events : List Event
  pub matcher_version : MatcherVersion
  pub timezone : String

-- an event as it is stored; a key that is absent reads as `None`
pub record EventDoc : Type 0 where
  pub event_id : String
  pub subject : String
  pub resource : String
  pub location_lat : Option String
  pub location_lng : Option String
  pub location_radius_km : Option String
  pub time_mode : Option String
  pub time_start : Option String
  pub time_end : Option String
  pub action : String

-- a policy as it is stored, under `_id`
pub record PolicyDoc : Type 0 where
  pub policy_id : String
  pub account_id : String
  pub name : String
  pub effect : String
  pub events : List EventDoc
  pub matcher_version : Option String
  pub timezone : Option String
  pub created_at : Option ℕ
  pub updated_at : Option ℕ

-- without the copy of the request
pub record Decision : Type 0 where
  pub allowed : Bool
  pub matched_policy : Option String
  pub matched_event : Option String
  pub reason : String
  pub matched_policy_ids : List String
  pub matched_event_ids : List String
  pub warnings : List String
