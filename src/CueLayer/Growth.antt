-- ===== src/CueLayer/Growth.antt =====
-- How a result grows while the functions of cue_layer.go pass it along.
use schemix.Prelude.{
  ◌≡◌, ◌≢◌, refl, sym, ap, ◌∙◌, Bool, true, false, ◌&&◌, List, [], ◌∷◌, ◌++◌, append_assoc,
  append-nil,
}
use schemix.Errors.{ValidationError, Result}
use schemix.CueLayer.{reject}

abbrev pub no_errors : List ValidationError → Bool
no_errors [] = true
no_errors (e ∷ es) = false

-- The result with more errors.
abbrev pub extend : List ValidationError → Result → Result
extend es r = record r { valid = r.valid && no_errors es; errors = r.errors ++ es }

abbrev pub Grows : Result → Result → Type 0
Grows r r' = (es : List ValidationError) × (r' ≡ extend es r)

pub &&-true : (b : Bool) → (b && true) ≡ b
&&-true true = refl
&&-true false = refl

pub &&-false : (b : Bool) → (b && false) ≡ false
&&-false true = refl
&&-false false = refl

extend-nil : (r : Result) → r ≡ extend [] r
extend-nil r = λ i. record {
  valid = sym (&&-true r.valid) i;
  errors = sym (append-nil r.errors) i;
  output = r.output;
}

no_errors-append :
    (b : Bool) (ds es : List ValidationError)
    → ((b && no_errors ds) && no_errors es) ≡ (b && no_errors (ds ++ es))
no_errors-append true [] es = refl
no_errors-append true (d ∷ ds) es = refl
no_errors-append false ds es = refl

extend-extend :
    (ds es : List ValidationError) (r : Result) → extend es (extend ds r) ≡ extend (ds ++ es) r
extend-extend ds es r = λ i. record {
  valid = no_errors-append r.valid ds es i;
  errors = append_assoc r.errors ds es i;
  output = r.output;
}

pub Grows-refl : (r : Result) → Grows r r
Grows-refl r = ([], extend-nil r)

pub Grows-trans : (r s t : Result) → Grows r s → Grows s t → Grows r t
Grows-trans r s t (ds, e) (es, f) = (ds ++ es, f ∙ ap (extend es) e ∙ extend-extend ds es r)

pub Grows-reject : (errs : List ValidationError) (r : Result) → errs ≢ [] → Grows r (reject errs r)
Grows-reject [] r h = absurd (h refl)
Grows-reject (e ∷ errs) r h = (
  e ∷ errs,
  λ i. record {
    valid = sym (&&-false r.valid) i;
    errors = r.errors ++ e ∷ errs;
    output = r.output;
  },
)

pub Grows-one : (e : ValidationError) (r : Result) → Grows r (reject (e ∷ []) r)
Grows-one e r = Grows-reject (e ∷ []) r (cc)
