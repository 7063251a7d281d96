-- ===== src/Acl/Types.antt =====
-- xoloapi/acl/domain/value_objects.py and the data of aggregates.py. A set of permissions is its
-- membership test.
use xolo_api.Base.{String, Bool, true, false, not, ◌&&◌, ◌||◌, List, ◌==◌}

pub data PrincipalType : Type 0 where
  user_principal group_principal : PrincipalType

pub data Permission : Type 0 where
  read write delete update manage : Permission

unfoldable pub same_principal_type : PrincipalType → PrincipalType → Bool
same_principal_type user_principal user_principal = true
same_principal_type group_principal group_principal = true
same_principal_type _ _ = false

pub record Principal : Type 0 where
  pub type : PrincipalType
  pub id : String

-- `Principal.__eq__`
unfoldable pub same_principal : Principal → Principal → Bool
unfolding same_principal_type
same_principal p q = same_principal_type p.type q.type && p.id == q.id

-- `set[Permission]`: a test for each member of the enumeration
pub record Permissions : Type 0 where
  pub has_read : Bool
  pub has_write : Bool
  pub has_delete : Bool
  pub has_update : Bool
  pub has_manage : Bool

abbrev pub has : Permission → Permissions → Bool
has read s = s.has_read
has write s = s.has_write
has delete s = s.has_delete
has update s = s.has_update
has manage s = s.has_manage

-- `set(Permission)`
abbrev pub every : Permissions
every = record {
  has_read = true;
  has_write = true;
  has_delete = true;
  has_update = true;
  has_manage = true;
}

abbrev pub nothing : Permissions
nothing = record {
  has_read = false;
  has_write = false;
  has_delete = false;
  has_update = false;
  has_manage = false;
}

-- `s | t`
abbrev pub union : Permissions → Permissions → Permissions
union s t = record {
  has_read = s.has_read || t.has_read;
  has_write = s.has_write || t.has_write;
  has_delete = s.has_delete || t.has_delete;
  has_update = s.has_update || t.has_update;
  has_manage = s.has_manage || t.has_manage;
}

-- `s - t`
abbrev pub minus : Permissions → Permissions → Permissions
minus s t = record {
  has_read = s.has_read && not t.has_read;
  has_write = s.has_write && not t.has_write;
  has_delete = s.has_delete && not t.has_delete;
  has_update = s.has_update && not t.has_update;
  has_manage = s.has_manage && not t.has_manage;
}

-- `bool(s)`
abbrev pub inhabited : Permissions → Bool
inhabited s = s.has_read || s.has_write || s.has_delete || s.has_update || s.has_manage

-- `s.issubset(t)`
abbrev pub subset : Permissions → Permissions → Bool
subset s t =
    (not s.has_read || t.has_read)
    && (not s.has_write || t.has_write)
    && (not s.has_delete || t.has_delete)
    && (not s.has_update || t.has_update)
    && (not s.has_manage || t.has_manage)

pub record AccessGrant : Type 0 where
  pub grant_id : String
  pub principal : Principal
  pub permissions : Permissions
  pub is_owner : Bool

-- one document per protected resource
pub record ResourcePolicy : Type 0 where
  pub account_id : String
  pub resource_id : String
  pub grants : List AccessGrant
