-- ===== src/Localize/Fuel.antt =====
-- expand and placeholderNames of localize.go: the fuel of their loops is enough.
use schemix.Prelude.{
  ℕ, zero, suc, ◌<◌, Text, ◌≡◌, refl, ap, Option, none, some, List, ◌∷◌, length, arith,
}
use schemix.GoLib.{GoLib}
use schemix.Errors.{ValidationError}
use schemix.Localize.Spans.{next_span, Span, next_span-Span, Span-shorter}
use schemix.Localize.Templates.{
  placeholder_value, glue, filled, expand_from, named_first, names_from,
}

named_first-fuel :
    (s : Text) (o : Option (Text × Text × Text)) (next next' : Text → List Text)
    → Span b'{' b'}' s o
    → ((t : Text) → length t < length s → next t ≡ next' t)
    → named_first o next ≡ named_first o next'
named_first-fuel s none next next' h k = refl
named_first-fuel s (some (before, name, behind)) next next' (_, _, e) k =
    ap (λ names. name ∷ names) (k behind (Span-shorter b'{' b'}' s before name behind e))

-- With more fuel than the template has bytes, the names do not depend on the fuel.
pub names_from-enough :
    (f g : ℕ) (s : Text) → length s < f → length s < g → names_from f s ≡ names_from g s
unfolding names_from
names_from-enough zero g s h k = absurd (omega arith)
names_from-enough (suc f) zero s h k = absurd (omega arith)
names_from-enough (suc f) (suc g) s h k =
    named_first-fuel s (next_span b'{' b'}' s) (names_from f) (names_from g)
      (next_span-Span b'{' b'}' s) λ t shorter. names_from-enough f g t (omega arith) (omega arith)

module _ (go : GoLib) (e : ValidationError) where
  filled-fuel :
      (s : Text) (o : Option (Text × Text × Text)) (next next' : Text → Option Text)
      → Span b'{' b'}' s o
      → ((t : Text) → length t < length s → next t ≡ next' t)
      → filled go e s o next ≡ filled go e s o next'
  filled-fuel s none next next' h k = refl
  filled-fuel s (some (before, name, behind)) next next' (_, _, cut_in) k =
      ap (glue go before (placeholder_value go name e))
        (k behind (Span-shorter b'{' b'}' s before name behind cut_in))

  -- With more fuel than the template has bytes, the expansion does not depend on the fuel.
  pub expand_from-enough :
      (f g : ℕ) (s : Text)
      → length s < f
      → length s < g
      → expand_from go e f s ≡ expand_from go e g s
  unfolding expand_from
  expand_from-enough zero g s h k = absurd (omega arith)
  expand_from-enough (suc f) zero s h k = absurd (omega arith)
  expand_from-enough (suc f) (suc g) s h k =
      filled-fuel s (next_span b'{' b'}' s) (expand_from go e f) (expand_from go e g)
        (next_span-Span b'{' b'}' s)
        λ t shorter. expand_from-enough f g t (omega arith) (omega arith)
