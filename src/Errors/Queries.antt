-- ===== src/Errors/Queries.antt =====
-- The queries of a result in errors.go, compared with one another.
use schemix.Prelude.{Text, Bool, true, List, [], ◌∷◌, any, keep_if, ◌≡◌, ◌≢◌, ◌↔◌, arith}
use schemix.Errors.{Result, ErrorCode, has_code, errors_by_code, has_errors_at, errors_by_path}

any-keep_if {ℓ} :
    {A : Type ℓ} (p : A → Bool) (xs : List A) → (any p xs ≡ true) ↔ (keep_if p xs ≢ [])
any-keep_if p [] = ((λ h. cc), λ h. absurd (h (cc)))
any-keep_if p (x ∷ xs) = ground (arith, any-keep_if p xs)

-- A result has a code, or an error at a path, exactly when the list of its errors with that code,
-- or at that path, is not empty.
pub has_iff_errors_by :
    (r : Result) (code : ErrorCode) (path : Text)
    → ((has_code r code ≡ true) ↔ (errors_by_code r code ≢ []))
      × ((has_errors_at r path ≡ true) ↔ (errors_by_path r path ≢ []))
unfolding has_code errors_by_code has_errors_at errors_by_path
has_iff_errors_by r code path = (any-keep_if _ r.errors, any-keep_if _ r.errors)
