-- ===== src/Ngac/Types.antt =====
-- xoloapi/ngac/domain/value_objects.py and aggregates.py. Time stamps are left out: no operation
-- of the subsystem reads one.
use xolo_api.Base.{String, Bool, true, false, List, [], ◌∷◌, Option}

pub data NodeType : Type 0 where
  user object user_attribute object_attribute policy_class : NodeType

-- `==` on the enumeration
unfoldable pub same_type : NodeType → NodeType → Bool
same_type user user = true
same_type object object = true
same_type user_attribute user_attribute = true
same_type object_attribute object_attribute = true
same_type policy_class policy_class = true
same_type _ _ = false

-- the member's name after its class, as an f-string has it
unfoldable pub type_name : NodeType → String
type_name user = "NodeType.USER"
type_name object = "NodeType.OBJECT"
type_name user_attribute = "NodeType.USER_ATTRIBUTE"
type_name object_attribute = "NodeType.OBJECT_ATTRIBUTE"
type_name policy_class = "NodeType.POLICY_CLASS"

-- the member's value
unfoldable pub type_value : NodeType → String
type_value user = "user"
type_value object = "object"
type_value user_attribute = "user_attribute"
type_value object_attribute = "object_attribute"
type_value policy_class = "policy_class"

-- Which node types a given type can be assigned into (child to parent).
unfoldable pub valid_assignment_targets : NodeType → List NodeType
valid_assignment_targets user = user_attribute ∷ []
valid_assignment_targets object = object_attribute ∷ []
valid_assignment_targets user_attribute = user_attribute ∷ policy_class ∷ []
valid_assignment_targets object_attribute = object_attribute ∷ policy_class ∷ []
valid_assignment_targets policy_class = []

pub record Node : Type 0 where
  pub account_id : String
  pub node_id : String
  pub node_type : NodeType
  pub name : String
  pub properties : List (String × String)
  pub owner_id : String
  pub user_id : Option String
  pub resource_id : Option String

-- A directed edge, from the child `from_id` to the parent `to_id`.
pub record Assignment : Type 0 where
  pub account_id : String
  pub assignment_id : String
  pub from_id : String
  pub to_id : String
  pub owner_id : String

-- A permission edge: a user attribute has a set of operations on an object attribute.
pub record Association : Type 0 where
  pub account_id : String
  pub association_id : String
  pub user_attribute_id : String
  pub object_attribute_id : String
  pub operations : List String
  pub owner_id : String
