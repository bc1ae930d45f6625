-- ===== src/Fallible.antt =====
-- `(T, error)`, where the error is its text.
use schemix.Prelude.{Text}

pub data Fallible {ℓ} (A : Type ℓ) : Type ℓ where
  ok : A → Fallible A
  fail : Text → Fallible A
