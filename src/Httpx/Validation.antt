-- ===== src/Httpx/Validation.antt =====
-- api/internal/httpx/bind.go, `Validator`. The map of field errors is a list of pairs, one a key.
use agentic_mudahurus.Shared.{
  Bool, List, [], ◌∷◌, if◌then◌else◌, Text, codes, text_eq, is_empty, trim_space,
}
use agentic_mudahurus.World.{Result, ok, err}
use agentic_mudahurus.Httpx.Errors.{validation}

abbrev pub Validator : Type 0
Validator = List (Text × Text)

-- v.fields[field] = msg
unfoldable pub set_field : Text → Text → Validator → Validator
set_field field msg [] = (field, msg) ∷ []
set_field field msg ((f, m) ∷ v) =
    if text_eq f field then (f, msg) ∷ v else (f, m) ∷ set_field field msg v

abbrev pub new_validator : Validator
new_validator = []

unfoldable pub check : Bool → Text → Text → Validator → Validator
check cond field msg v = if cond then v else set_field field msg v

-- strings.TrimSpace(value) == ""
unfoldable pub is_blank : Text → Bool
is_blank value = is_empty (trim_space value)

unfoldable pub require_field : Text → Text → Validator → Validator
unfolding is_blank
require_field field value v = if is_blank value then set_field field (codes "is required") v else v

unfoldable pub verdict : Validator → Result (Unit {0})
verdict [] = ok tt
verdict (e ∷ v) = err (validation (e ∷ v))
