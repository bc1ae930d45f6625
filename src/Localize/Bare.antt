-- ===== src/Localize/Bare.antt =====
-- Catalog.resolve of localize.go: a chain that words an error of a code and a path alone words
-- every error with that code and a path.
use schemix.Prelude.{
  ℕ, zero, suc, Text, text, text_eq, ◌≡◌, refl, sym, ap, ◌∙◌, subst, Bool, true, false, not, Option,
  none, some, List, [], ◌∷◌, all, arith, inl, inr, ◌⊎◌, if-case, if◌then◌else◌,
}
use schemix.GoLib.{GoLib}
use schemix.Errors.{ErrorCode, ValidationError}
use schemix.Localize.Templates.{
  is_empty_text, expand, placeholder_value, placeholder_names, enum_options_text,
  enum_options_from_detail, ends_with, unless_empty,
}
use schemix.Localize.Holes.{Quotes, has_value, is_value, is_empty_text-expand}
use schemix.Localize.Catalogs.{
  Message, Localizer, no_localizer, catalog, foreign, Catalog, Heap, Wording, panicked, no_wording,
  wording, as_wording, first_text, or_next, relabel, lookup_label, finish_body, render,
  resolve_behind, resolve_in, resolve,
}
use schemix.Localize.Entries.{message_of, body_of, relabelled}
use schemix.Localize.Coverage.{Worded, or_next-Worded, relabel-path, finish_body-Worded}
use schemix.Localize.Problems.{bare}

-- No catalog gives an empty label.
abbrev pub Labelled : Heap → Type 0
Labelled heap =
    (id : ℕ) (path : Text)
    → is_empty_text path ≡ false
    → is_empty_text (relabelled (lookup_label (heap id) path) path) ≡ false

-- A localizer of the caller never answers with an empty text.
abbrev pub Speaks : Localizer → Type 0
Speaks (foreign f) = (e : ValidationError) → is_empty_text (f e) ≡ false
Speaks _ = Unit

abbrev pub Speaking : Heap → Type 0
Speaking heap = (id : ℕ) → Speaks (heap id).fallback

or_next-split : (w next : Wording) → Worded (or_next w next) → Worded w ⊎ Worded next
or_next-split panicked next h = inl tt
or_next-split no_wording next h = inr h
or_next-split (wording s) next h = inl tt

or_next-right : (w next : Wording) → Worded next → Worded (or_next w next)
or_next-right panicked next h = tt
or_next-right no_wording next h = h
or_next-right (wording s) next h = tt

as_wording-Worded : (s : Text) → is_empty_text s ≡ false → Worded (as_wording s)
as_wording-Worded [] h = absurd (cc)
as_wording-Worded (c ∷ s) h = tt

relabel-bare :
    (o : Option Text) (code : ErrorCode) (p : Text)
    → relabel o (bare code p) ≡ bare code (relabelled o p)
relabel-bare none code p = refl
relabel-bare (some label) code p = refl

relabel-code : (o : Option Text) (e : ValidationError) → (relabel o e).code ≡ e.code
relabel-code none e = refl
relabel-code (some label) e = refl

empty-apart : is_empty_text [] ≡ false → ⊥
empty-apart h = ground arith

first_text_mono :
    (a b c d : Text)
    → (is_empty_text a ≡ false → is_empty_text c ≡ false)
    → (is_empty_text b ≡ false → is_empty_text d ≡ false)
    → is_empty_text (first_text a b) ≡ false
    → is_empty_text (first_text c d) ≡ false
first_text_mono (x ∷ a) b [] d h k l = absurd (empty-apart (h refl))
first_text_mono [] b [] d h k l = k l
first_text_mono a b (y ∷ c) d h k l = refl

not-false : (b : Bool) → not b ≡ false → b ≡ true
not-false b h = ground arith

module _ (go : GoLib) where
  unless_empty-value : (s shown : Text) → is_value (unless_empty go s shown) ≡ not (is_empty_text s)
  unless_empty-value [] shown = refl
  unless_empty-value (c ∷ s) shown = refl

  all_none :
      (a b c d : Bool)
      → is_value
          (if a then none else if b then none else if c then none else if d then none else none)
        ≡ true
      → ⊥
  all_none a b c d h = ground arith

  field-has_value :
      (name : Text) (e : ValidationError)
      → text_eq name (text "field") ≡ true
      → is_empty_text e.path ≡ false
      → has_value go e name ≡ true
  unfolding placeholder_value
  field-has_value name e f h =
      if-case (λ (o : Option Text). is_value o ≡ true) (text_eq name (text "field"))
        (unless_empty go e.path e.path) _ (λ _. unless_empty-value e.path e.path ∙ ap not h)
        (λ g. absurd (cc))

  -- Of an error that has only a code and a path, only the field has a value.
  bare-has_value :
      (code : ErrorCode) (p name : Text) (e : ValidationError)
      → is_empty_text e.path ≡ false
      → has_value go (bare code p) name ≡ true
      → has_value go e name ≡ true
  unfolding placeholder_value enum_options_text enum_options_from_detail ends_with
  bare-has_value code p name e h k =
      if-case (λ (o : Option Text). is_value o ≡ true → has_value go e name ≡ true)
        (text_eq name (text "field")) (unless_empty go p p) _ (λ f _. field-has_value name e f h)
        (λ _ v. absurd (
          all_none (text_eq name (text "type")) (text_eq name (text "bound"))
            (text_eq name (text "options")) (text_eq name (text "suggestion")) v))
        k

  mono-all :
      (e e' : ValidationError) (names : List Text)
      → ((name : Text) → has_value go e name ≡ true → has_value go e' name ≡ true)
      → all (has_value go e) names ≡ true
      → all (has_value go e') names ≡ true
  mono-all e e' [] h k = refl
  mono-all e e' (name ∷ names) h k = ground (arith, h name, mono-all e e' names h)

  module _ (quotes : Quotes go) (code : ErrorCode) where
    expand-bare :
        (tmpl p : Text) (e : ValidationError)
        → is_empty_text e.path ≡ false
        → is_empty_text (expand go tmpl (bare code p)) ≡ false
        → is_empty_text (expand go tmpl e) ≡ false
    unfolding expand
    expand-bare [] p e h k = k
    expand-bare (c ∷ tmpl) p e h k =
        let names = placeholder_names (c ∷ tmpl) in
        let named = mono-all (bare code p) e names (λ name. bare-has_value code p name e h) in
        is_empty_text-expand go e quotes c tmpl
        ∙ ap not
            (named (not-false _ (sym (is_empty_text-expand go (bare code p) quotes c tmpl) ∙ k)))

    body_of-bare :
        (m : Message) (p : Text) (e : ValidationError)
        → is_empty_text e.path ≡ false
        → is_empty_text (body_of go m (bare code p)) ≡ false
        → is_empty_text (body_of go m e) ≡ false
    body_of-bare m p e h =
        first_text_mono (expand go m.template (bare code p)) (expand go m.fallback (bare code p))
          (expand go m.template e) (expand go m.fallback e) (expand-bare m.template p e h)
          (expand-bare m.fallback p e h)

    module _ (heap : Heap) where
      finish_body-split :
          (left : ℕ) (c : Catalog) (e : ValidationError) (body : Text)
          → Worded (finish_body go heap left c e body)
          → is_empty_text body ≡ false
      finish_body-split left c e [] h = absurd h
      finish_body-split left c e (b ∷ body) h = refl

      render-bare :
          (left : ℕ) (c : Catalog) (p : Text) (e : ValidationError)
          → e.code ≡ code
          → is_empty_text e.path ≡ false
          → Worded (render go heap left c (bare code p))
          → Worded (render go heap left c e)
      unfolding render
      render-bare left c p e same h k =
          let m = message_of c code in
          let body = finish_body-split left c (bare code p) (body_of go m (bare code p)) k in
          finish_body-Worded go heap left c e (body_of go (message_of c e.code) e) (
            subst (λ d. is_empty_text (body_of go (message_of c d) e) ≡ false) (sym same)
              (body_of-bare m p e h body))

      module _ (labelled : Labelled heap) (speaking : Speaking heap) where
        resolve_behind-bare :
            (l : Localizer) (p : Text) (e : ValidationError)
            (next : Option ℕ → ValidationError → Wording)
            → Speaks l
            → ((c : Option ℕ) → Worded (next c (bare code p)) → Worded (next c e))
            → Worded (resolve_behind go heap l (bare code p) next)
            → Worded (resolve_behind go heap l e next)
        resolve_behind-bare no_localizer p e next s h k = k
        resolve_behind-bare (catalog c) p e next s h k = h c k
        resolve_behind-bare (foreign f) p e next s h k = as_wording-Worded (f e) (s e)

        pub resolve-bare :
            (left : ℕ) (c : Option ℕ) (p : Text) (e : ValidationError)
            → e.code ≡ code
            → is_empty_text p ≡ false
            → is_empty_text e.path ≡ false
            → Worded (resolve go heap left c (bare code p))
            → Worded (resolve go heap left c e)
        unfolding resolve
        resolve-bare zero c p e same hp he k = k
        resolve-bare (suc left) none p e same hp he k = k
        resolve-bare (suc left) (some id) p e same hp he k =
            let c = heap id in
            let p' = relabelled (lookup_label c p) p in
            let e' = relabel (lookup_label c e.path) e in
            let same' = relabel-code (lookup_label c e.path) e ∙ same in
            let he' = relabel-path e (lookup_label c e.path) (labelled id e.path he) in
            let k' =
              subst (λ x. Worded (resolve_in go heap (suc left) c x (resolve go heap left)))
                (relabel-bare (lookup_label c p) code p) k in
            elim (or_next-split (render go heap (suc left) c (bare code p')) _ k') [
              | inl w ↦
                  or_next-Worded (render go heap (suc left) c e') _
                    (render-bare (suc left) c p' e' same' he' w)
              | inr w ↦ or_next-right (render go heap (suc left) c e') _ (
                  resolve_behind-bare c.fallback p' e' (resolve go heap left) (speaking id)
                    (λ d. resolve-bare left d p' e' same' (labelled id p hp) he') w)
            ]
