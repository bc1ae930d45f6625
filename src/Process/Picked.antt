-- ===== src/Process/Picked.antt =====
-- keepLowestFailedPriority of process.go drops errors in place: the list that such a loop leaves.
use schemix.Prelude.{◌≡◌, Bool, true, List, [], ◌∷◌, keep_if, if-case}
use schemix.Errors.{ValidationError}

-- The second list is what is left of the first when the errors without the property are dropped.
pub data Picked (P : ValidationError → Type 0)
    : List ValidationError → List ValidationError → Type 0 where
  nothing : Picked P [] []
  stays :
      (e : ValidationError) (es fs : List ValidationError)
      → P e
      → Picked P es fs
      → Picked P (e ∷ es) (e ∷ fs)
  goes :
      (e : ValidationError) (es fs : List ValidationError)
      → ¬ P e
      → Picked P es fs
      → Picked P (e ∷ es) fs

pub keep_if-Picked :
    (same : ValidationError → Bool) (P : ValidationError → Type 0) (es : List ValidationError)
    → ((e : ValidationError) → same e ≡ true → P e)
    → ((e : ValidationError) → P e → same e ≡ true)
    → Picked P es (keep_if same es)
keep_if-Picked same P [] f g = nothing
keep_if-Picked same P (e ∷ es) f g =
    let rest = keep_if-Picked same P es f g in
    if-case (Picked P (e ∷ es)) (same e) (e ∷ keep_if same es) (keep_if same es)
      (λ h. stays e es (keep_if same es) (f e h) rest)
      (λ h. goes e es (keep_if same es) (λ p. cc (g e p)) rest)
