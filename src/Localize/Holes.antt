-- ===== src/Localize/Holes.antt =====
-- expand of localize.go against placeholderNames: which templates can be rendered.
use schemix.Prelude.{
  ℕ, zero, suc, Text, text, text_eq, ◌≡◌, refl, ap, ◌∙◌, Bool, true, false, ◌&&◌, not, Option, none,
  some, List, [], ◌∷◌, ◌++◌, all, length, if-case, if◌then◌else◌,
}
use schemix.GoLib.{GoLib}
use schemix.Errors.{ValidationError}
use schemix.Localize.Spans.{has_byte, next_span}
use schemix.Localize.Templates.{
  is_empty_text, enum_options_text, placeholder_value, unless_empty, glue, filled, expand_from,
  expand, or_empty, named_first, names_from, placeholder_names,
}

abbrev pub is_value : Option Text → Bool
is_value none = false
is_value (some v) = true

-- strconv.Quote puts quotes around its argument, so its result is never empty.
abbrev pub Quotes : GoLib → Type 0
Quotes go = (s : Text) → is_empty_text (go.quote s) ≡ false

abbrev Filled : Option Text → Type 0
Filled none = Unit
Filled (some v) = is_empty_text v ≡ false

append-Filled : (a b : Text) → is_empty_text b ≡ false → is_empty_text (a ++ b) ≡ false
append-Filled [] b h = h
append-Filled (c ∷ a) b h = refl

append-Filled_left : (a b : Text) → is_empty_text a ≡ false → is_empty_text (a ++ b) ≡ false
append-Filled_left [] b h = absurd (cc)
append-Filled_left (c ∷ a) b h = refl

module _ (go : GoLib) where
  unless_empty-Filled :
      (s shown : Text)
      → (is_empty_text s ≡ false → is_empty_text shown ≡ false)
      → Filled (unless_empty go s shown)
  unless_empty-Filled [] shown h = tt
  unless_empty-Filled (c ∷ s) shown h = h refl

  placeholder_value-Filled :
      Quotes go → (name : Text) (e : ValidationError) → Filled (placeholder_value go name e)
  unfolding placeholder_value
  placeholder_value-Filled quotes name e =
      if-case Filled (text_eq name (text "field")) _ _
        (λ _. unless_empty-Filled e.path e.path λ h. h)
        λ _.
          if-case Filled (text_eq name (text "type")) _ _
            (λ _. unless_empty-Filled e.field_type e.field_type λ h. h)
            λ _.
              if-case Filled (text_eq name (text "bound")) _ _
                (λ _. unless_empty-Filled e.bound e.bound λ h. h)
                λ _.
                  if-case Filled (text_eq name (text "options")) _ _
                    (λ _.
                      unless_empty-Filled (enum_options_text go e) (enum_options_text go e) λ h. h)
                    λ _.
                      if-case Filled (text_eq name (text "suggestion")) _ none
                        (λ _.
                          unless_empty-Filled e.suggestion (go.quote e.suggestion)
                            λ _. quotes e.suggestion)
                        (λ _. tt)

  abbrev pub has_value : ValidationError → Text → Bool
  has_value e name = is_value (placeholder_value go name e)

  module _ (e : ValidationError) where
    is_value-glue :
        (before : Text) (v rest : Option Text)
        → is_value (glue go before v rest) ≡ (is_value v && is_value rest)
    is_value-glue before none rest = refl
    is_value-glue before (some v) none = refl
    is_value-glue before (some v) (some rest) = refl

    is_value-filled :
        (rest : Text) (o : Option (Text × Text × Text)) (next : Text → Option Text)
        (names : Text → List Text)
        → ((t : Text) → is_value (next t) ≡ all (has_value e) (names t))
        → is_value (filled go e rest o next) ≡ all (has_value e) (named_first o names)
    is_value-filled rest none next names h = refl
    is_value-filled rest (some (before, name, behind)) next names h =
        is_value-glue before (placeholder_value go name e) (next behind)
        ∙ ap (λ b. has_value e name && b) (h behind)

    is_value-expand_from :
        (f : ℕ) (s : Text) → is_value (expand_from go e f s) ≡ all (has_value e) (names_from f s)
    unfolding expand_from names_from
    is_value-expand_from zero s = refl
    is_value-expand_from (suc f) s =
        is_value-filled s (next_span b'{' b'}' s) (expand_from go e f) (names_from f)
          λ t. is_value-expand_from f t

    glue-Filled : (before : Text) (v rest : Option Text) → Filled v → Filled (glue go before v rest)
    glue-Filled before none rest h = tt
    glue-Filled before (some v) none h = tt
    glue-Filled before (some v) (some rest) h =
        append-Filled_left (before ++ v) rest (append-Filled before v h)

    filled-Filled :
        Quotes go
        → (c : ℕ) (s : Text) (o : Option (Text × Text × Text)) (next : Text → Option Text)
        → Filled (filled go e (c ∷ s) o next)
    filled-Filled quotes c s none next = refl
    filled-Filled quotes c s (some (before, name, behind)) next =
        glue-Filled before (placeholder_value go name e) (next behind)
          (placeholder_value-Filled quotes name e)

    or_empty-Filled : (o : Option Text) → Filled o → is_empty_text (or_empty o) ≡ not (is_value o)
    or_empty-Filled none h = refl
    or_empty-Filled (some v) h = h

    has_byte-cases :
        (b : Bool) (c : ℕ) (tmpl expanded : Text) (names : List Text)
        → is_empty_text expanded ≡ not (all (has_value e) names)
        → is_empty_text (if not b then c ∷ tmpl else expanded)
          ≡ not (all (has_value e) (if b then names else []))
    has_byte-cases true c tmpl expanded names h = h
    has_byte-cases false c tmpl expanded names h = refl

    -- If quoting never gives an empty text, then a template that is not empty renders to a text
    -- that is not empty exactly when each placeholder that it names has a value.
    pub is_empty_text-expand :
        Quotes go
        → (c : ℕ) (tmpl : Text)
        → is_empty_text (expand go (c ∷ tmpl) e)
          ≡ not (all (has_value e) (placeholder_names (c ∷ tmpl)))
    unfolding expand placeholder_names expand_from
    is_empty_text-expand quotes c tmpl =
        let f = suc (length (c ∷ tmpl)) in
        has_byte-cases (has_byte b'{' (c ∷ tmpl)) c tmpl (or_empty (expand_from go e f (c ∷ tmpl)))
          (names_from f (c ∷ tmpl))
          (or_empty-Filled (expand_from go e f (c ∷ tmpl)) (
              filled-Filled quotes c tmpl (next_span b'{' b'}' (c ∷ tmpl))
                (expand_from go e (length (c ∷ tmpl))))
            ∙ ap not (is_value-expand_from f (c ∷ tmpl)))
