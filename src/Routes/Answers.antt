-- ===== src/Routes/Answers.antt =====
-- How requests to the administrator's routes are answered: backend/app/catalog/router.py with the
-- handlers of backend/app/core/errors.py.
use stockstack.Common.{ℕ, Bool, true, false, List, [], ◌∷◌}
use stockstack.Common.Text.{Text}
use stockstack.Json.{Json}
use stockstack.Routes.Expected.{Expected}

-- The statuses that the administrator is answered with, and others.
abbrev pub answers : Bool → List ℕ
answers true = 200 ∷ 201 ∷ 400 ∷ 404 ∷ 409 ∷ []
answers false = 401 ∷ []
