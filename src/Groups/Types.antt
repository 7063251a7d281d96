-- ===== src/Groups/Types.antt =====
-- xoloapi/groups/domain/aggregates.py, without time stamps. Each stored group has a normalized name, which
-- documents of older versions may lack.
use xolo_api.Base.{String, Bool, Option, ◌==◌}

pub record SecurityGroup : Type 0 where
  pub account_id : String
  pub group_id : String
  pub name : String
  pub owner_id : String
  pub description : Option String
  pub normalized_name : String
  pub is_active : Bool

pub record GroupMember : Type 0 where
  pub account_id : String
  pub group_id : String
  pub user_id : String

-- `SecurityGroup.is_owned_by`
abbrev pub is_owned_by : String → SecurityGroup → Bool
is_owned_by user_id group = group.owner_id == user_id
