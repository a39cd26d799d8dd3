-- ===== src/Httpx/Laws.antt =====
-- What the helpers of httpx promise to the handlers.
use agentic_mudahurus.Shared.{
  ◌≡◌, ◌≢◌, refl, inl, inr, Bool-cases, Bool, true, false, [], ◌∷◌, arith, Text, codes,
}
use agentic_mudahurus.Shared.Int.{pos, ◌≤ℤ◌}
use agentic_mudahurus.World.{ok}
use agentic_mudahurus.Httpx.Validation.{
  Validator, set_field, check, is_blank, require_field, verdict,
}
use agentic_mudahurus.Httpx.Paging.{parse_page}

-- Whatever the query string holds, the page has a limit from 1 to 100 and an offset of at least 0.
pub parse_page_bounds :
    (query_param : Text → Text)
    → (pos 1 ≤ℤ (parse_page query_param).limit)
      × ((parse_page query_param).limit ≤ℤ pos 100)
      × (pos 0 ≤ℤ (parse_page query_param).offset)
unfolding parse_page
parse_page_bounds query_param = ground arith

pub set_field-ne-nil : (field msg : Text) (v : Validator) → set_field field msg v ≢ []
unfolding set_field
set_field-ne-nil field msg [] = cc
set_field-ne-nil field msg ((f, m) ∷ v) = ground arith

verdict-eq-ok : (v : Validator) → verdict v ≡ ok tt → v ≡ []
unfolding verdict
verdict-eq-ok [] h = refl
verdict-eq-ok (e ∷ v) h = cc

pub verdict-set_field : (field msg : Text) (v : Validator) → verdict (set_field field msg v) ≢ ok tt
verdict-set_field field msg v h = set_field-ne-nil field msg v (verdict-eq-ok _ h)

-- A chain of checks passes only if each check passes.
pub verdict-check :
    (cond : Bool) (field msg : Text) (v : Validator)
    → verdict (check cond field msg v) ≡ ok tt
    → (cond ≡ true) × (verdict v ≡ ok tt)
unfolding check
verdict-check true field msg v h = (refl, h)
verdict-check false field msg v h = absurd (verdict-set_field field msg v h)

pub verdict-require_field :
    (field value : Text) (v : Validator)
    → verdict (require_field field value v) ≡ ok tt
    → (is_blank value ≡ false) × (verdict v ≡ ok tt)
unfolding require_field
verdict-require_field field value v h = elim (Bool-cases (is_blank value)) [
  | inl blank ↦ absurd (verdict-set_field field (codes "is required") v (rw blank at h))
  | inr filled ↦ (filled, rw filled at h)
]
