-- ===== src/Localize/Soundness.antt =====
-- Catalog.Validate of localize.go: a catalog that passes has wording for every error with a
-- path and a code of the package.
use schemix.Prelude.{
  ℕ, Text, text_eq_iff, ◌≡◌, All, refl, subst, true, false, Bool-cases, Option, none, some, List,
  [], ◌∷◌, any, inl, inr, if-case,
}
use schemix.GoLib.{GoLib}
use schemix.Errors.{ErrorCode, ValidationError, code_eq}
use schemix.Localize.Templates.{is_empty_text}
use schemix.Localize.Holes.{Quotes}
use schemix.Localize.Catalogs.{
  Heap, Wording, panicked, no_wording, wording, resolve, max_fallback_depth,
}
use schemix.Localize.Wording.{Linked, resolve-Safe}
use schemix.Localize.Coverage.{wording-of, Worded}
use schemix.Localize.Problems.{
  bare, field_path, problem_of, join_problems, check_codes, validate, builtin_error_codes,
  has_cycle, check_placeholders,
}
use schemix.Localize.Bare.{Labelled, Speaking, resolve-bare}

join_problems-left :
    (o o' : Option (List Text)) → join_problems o o' ≡ some [] → (o ≡ some []) × (o' ≡ some [])
join_problems-left none o' h = absurd (cc)
join_problems-left (some ps) none h = absurd (cc)
join_problems-left (some []) (some rest) h = (refl, h)
join_problems-left (some (p ∷ ps)) (some rest) h = absurd (cc)

problem_of-Worded : (d : ErrorCode) (w w' : Wording) → problem_of d w w' ≡ some [] → Worded w'
problem_of-Worded d panicked w' h = absurd (cc)
problem_of-Worded d no_wording w' h = absurd (cc)
problem_of-Worded d (wording s) panicked h = tt
problem_of-Worded d (wording s) no_wording h = absurd (cc)
problem_of-Worded d (wording s) (wording t) h = tt

-- What holds of every code of a list holds of a code that equals one of them.
All-code_eq :
    (P : ErrorCode → Type 0) (codes : List ErrorCode) (code : ErrorCode)
    → All P codes
    → any (λ d. code_eq d code) codes ≡ true
    → P code
All-code_eq P [] code h k = absurd (cc)
All-code_eq P (d ∷ codes) code (h, hs) k = elim (Bool-cases (code_eq d code)) [
  | inl same ↦ subst P ((text_eq_iff d code).0 same) h
  | inr other ↦ All-code_eq P codes code hs (rw other at k)
]

module _ (go : GoLib) where
  module _ (heap : Heap) where
    check_codes-Worded :
        (c : Option ℕ) (codes : List ErrorCode)
        → check_codes go heap c codes ≡ some []
        → All (λ d. Worded (resolve go heap max_fallback_depth c (bare d field_path))) codes
    unfolding check_codes
    check_codes-Worded c [] h = tt
    check_codes-Worded c (d ∷ codes) h =
        let (first, rest) = join_problems-left _ (check_codes go heap c codes) h in
        (problem_of-Worded d _ _ first, check_codes-Worded c codes rest)

    validate-checked :
        (fuel id : ℕ)
        → validate go heap fuel (some id) ≡ some []
        → check_codes go heap (some id) builtin_error_codes ≡ some []
    unfolding validate
    validate-checked fuel id =
        let problems = check_codes go heap (some id) builtin_error_codes in
        if-case (λ (o : Option (List Text)). o ≡ some [] → problems ≡ some [])
          (has_cycle heap fuel [] (some id)) _
          (join_problems (some (check_placeholders (heap id))) problems) (λ _ h. absurd (cc))
          (λ _ h. (join_problems-left (some (check_placeholders (heap id))) problems h).1)

    -- If no catalog of the heap has a nil pointer behind it or an empty label, the caller's own
    -- localizers never answer with an empty text, and quoting never gives one, then a catalog for
    -- which Validate reports no problem has a wording, by itself or by the chain behind it, for
    -- every error that has one of the package's codes and a path, whatever its other fields.
    pub validate-resolve :
        Quotes go
        → Linked heap
        → Labelled heap
        → Speaking heap
        → (fuel id : ℕ) → validate go heap fuel (some id) ≡ some []
        → (e : ValidationError) → any (λ code. code_eq code e.code) builtin_error_codes ≡ true
        → is_empty_text e.path ≡ false
        → (b : ℕ) × (s : Text) × (resolve go heap max_fallback_depth (some id) e ≡ wording (b ∷ s))
    validate-resolve quotes linked labelled speaking fuel id h e coded pathed =
        let worded =
          check_codes-Worded (some id) builtin_error_codes (validate-checked fuel id h) in
        let bare_worded = λ (d : ErrorCode).
          Worded (resolve go heap max_fallback_depth (some id) (bare d field_path)) in
        wording-of (resolve go heap max_fallback_depth (some id) e)
          (resolve-Safe go heap linked max_fallback_depth (some id) e)
          (resolve-bare go quotes e.code heap labelled speaking max_fallback_depth (some id)
            field_path e refl refl pathed
            (All-code_eq bare_worded builtin_error_codes e.code worded coded))
