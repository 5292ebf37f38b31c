-- ===== src/Handlers/Middleware/Ids.antt =====
-- Which id a response bears: backend/app/core/errors.py.
use stockstack.Common.{List, filter, map}
use stockstack.Common.Text.{Text}
use stockstack.Handlers.Middleware.{Headers, has_name}

-- The values of the headers with a name.
abbrev pub values_of : Text → Headers → List Text
values_of name headers = map (λ h. h.1) (filter (has_name name) headers)
