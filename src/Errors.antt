-- ===== src/Errors.antt =====
-- The error values of xoloapi/errors/base.py. The metadata that an error carries for the log is
-- not modelled; the message, the code and the HTTP status are.
use xolo_api.Base.{String, ℕ, ◌==◌, if◌then◌else◌}
use Prim.Native.String.{◌++◌}

pub data XoloException : Type 0 where
  -- a resource and its identifier
  not_found already_exists : String → String → XoloException
  -- a message
  conflict unauthorized access_denied validation : String → XoloException
  -- a user id
  inactive_user : String → XoloException
  database internal : XoloException
  -- a Python exception that no handler on the way has turned into an error value
  uncaught : XoloException

-- The class attribute `status_code`; the framework answers 500 to an exception that escapes.
unfoldable pub status_code : XoloException → ℕ
status_code (not_found _ _) = 404
status_code (already_exists _ _) = 409
status_code (conflict _) = 409
status_code (unauthorized _) = 401
status_code (access_denied _) = 403
status_code (inactive_user _) = 403
status_code (validation _) = 422
status_code database = 500
status_code internal = 500
status_code uncaught = 500

-- The class attribute `code`.
unfoldable pub code : XoloException → String
code (not_found _ _) = "XOLO.NOT_FOUND"
code (already_exists _ _) = "XOLO.ALREADY_EXISTS"
code (conflict _) = "XOLO.CONFLICT"
code (unauthorized _) = "XOLO.UNAUTHORIZED"
code (access_denied _) = "XOLO.ACCESS_DENIED"
code (inactive_user _) = "XOLO.INACTIVE_USER"
code (validation _) = "XOLO.VALIDATION_ERROR"
code database = "XOLO.DATABASE_ERROR"
code internal = "XOLO.INTERNAL_ERROR"
code uncaught = "XOLO.ERROR"

-- `msg += f": '{identifier}'"` if there is an identifier
abbrev with_identifier : String → String → String
with_identifier text identifier =
    if identifier == "" then text else text ++ (": '" ++ (identifier ++ "'"))

unfoldable pub message : XoloException → String
message (not_found resource identifier) = with_identifier (resource ++ " not found") identifier
message (already_exists resource identifier) =
    with_identifier (resource ++ " already exists") identifier
message (conflict text) = text
message (unauthorized text) = text
message (access_denied text) = text
message (inactive_user _) = "Inactive user"
message (validation text) = text
message database = "Database operation failed"
message internal = "Internal server error"
message uncaught = ""
