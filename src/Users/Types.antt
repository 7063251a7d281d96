-- ===== src/Users/Types.antt =====
-- The user documents of xoloapi/users/infrastructure/mongo_repository.py: the fields that a
-- lookup by identifier reads. `User` itself is a model of the `commonx` package.
use xolo_api.Base.{String}

pub record User : Type 0 where
  pub account_id : String
  pub key : String
  pub username : String
  pub normalized_username : String
