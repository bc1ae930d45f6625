-- ===== src/Classify/Disjunction.antt =====
-- collapseDisjunctionErrors and what it calls, of classify.go.
use schemix.Prelude.{
  Text, text, text_eq, Bool, true, false, ◌&&◌, not, any, Option, none, some, List, [], ◌∷◌, ◌++◌,
  map, keep_if, contains, has_prefix, if◌then◌else◌, ◌≢◌, arith, refl, text_eq_refl,
}
use schemix.GoLib.{GoLib, after, drop_prefix, trim_space}
use schemix.Errors.{ValidationError, enum_invalid}
use schemix.Suggest.{suggest_closest}
use schemix.Fast.Enum.{comma_list}

abbrev pub disjunction_summary_marker : Text
disjunction_summary_marker = text "errors in empty disjunction"

abbrev pub conflict_marker : Text
conflict_marker = text "conflicting values "

-- What stands before and after the last occurrence: `strings.LastIndex`.
unfoldable pub split_last : Text → Text → Option (Text × Text)
split_last marker [] = if has_prefix [] marker then some ([], []) else none
split_last marker (c ∷ s) = elim (split_last marker s) [
  | some (before, behind) ↦ some (c ∷ before, behind)
  | none ↦ if has_prefix (c ∷ s) marker then some ([], drop_prefix (c ∷ s) marker) else none
]

-- A trailing parenthetical is dropped unless it is all of the text.
unfoldable pub drop_parenthetical : Text → Text
unfolding split_last
drop_parenthetical rest = elim (split_last (text " (") rest) [
  | none ↦ rest
  | some ([], behind) ↦ rest
  | some (c ∷ before, behind) ↦ c ∷ before
]

abbrev both_present : Text → Text → Option (Text × Text)
both_present [] input = none
both_present candidate [] = none
both_present candidate input = some (candidate, input)

abbrev trimmed_pair : Option (Text × Text) → Option (Text × Text)
trimmed_pair none = none
trimmed_pair (some (before, behind)) = both_present (trim_space before) (trim_space behind)

abbrev parse_rest : Option Text → Option (Text × Text)
parse_rest none = none
parse_rest (some rest) = trimmed_pair (split_last (text " and ") (drop_parenthetical rest))

-- the candidate and the input
unfoldable pub parse_conflict : Text → Option (Text × Text)
unfolding after drop_parenthetical
parse_conflict msg = parse_rest (after conflict_marker msg)

-- The variables of the loop in mergeDisjunctionGroup.
pub record Merge : Type 0 where
  pub summary : Option ValidationError
  pub candidates : List Text
  pub input : Text

abbrev is_set : Text → Bool
is_set [] = false
is_set _ = true

abbrev add_conflict : Merge → Option (Text × Text) → Option Merge
add_conflict m none = none
add_conflict m (some (candidate, input)) =
    if is_set m.input && not (text_eq m.input input)
    then none
    else some (record m { candidates = m.candidates ++ candidate ∷ []; input = input })

unfoldable pub merge_step : ValidationError → Merge → Option Merge
unfolding parse_conflict
merge_step e m =
    if contains e.message disjunction_summary_marker
    then some (record m { summary = some e })
    else if contains e.message conflict_marker
    then add_conflict m (parse_conflict e.message)
    else none

unfoldable pub merge_loop : List ValidationError → Merge → Option Merge
merge_loop [] m = some m
merge_loop (e ∷ group) m = elim (merge_step e m) [ none ↦ none | some m' ↦ merge_loop group m' ]

module _ (go : GoLib) where
  unquoted : Text → Text
  unquoted v = elim (go.unquote v) [ some u ↦ u | none ↦ v ]

  unfoldable pub unquote_all : List Text → List Text
  unfolding unquoted
  unquote_all vals = map unquoted vals

  abbrev suggestion_for : Text → Text → List Text → Text
  suggestion_for default input options = elim (go.unquote input) [
    | some v ↦ suggest_closest go v options
    | none ↦ default
  ]

  abbrev merged : Merge → Option ValidationError
  merged m = elim m.summary [
    | none ↦ none
    | some summary ↦ elim m.candidates [
      | [] ↦ none
      | c ∷ cs ↦ some (record summary {
        code = enum_invalid;
        message =
            text "value " ++ m.input ++ text " not in enum [" ++ comma_list (c ∷ cs) ++ text "]";
        enum_options = unquote_all (c ∷ cs);
        suggestion = suggestion_for summary.suggestion m.input (unquote_all (c ∷ cs));
      })
    ]
  ]

  abbrev no_merge : Merge
  no_merge = record { summary = none; candidates = []; input = [] }

  unfoldable pub merge_disjunction_group : List ValidationError → Option ValidationError
  unfolding merge_loop unquote_all comma_list
  merge_disjunction_group [] = none
  merge_disjunction_group (e ∷ []) = none
  merge_disjunction_group (e ∷ f ∷ group) = elim (merge_loop (e ∷ f ∷ group) no_merge) [
    | none ↦ none
    | some m ↦ merged m
  ]

  abbrev pub group_at : Text → List ValidationError → List ValidationError
  group_at path errs = keep_if (λ e. text_eq e.path path) errs

  -- the paths in the order in which they are first seen
  unfoldable pub first_seen : List Text → List ValidationError → List Text
  first_seen seen [] = []
  first_seen seen (e ∷ errs) = elim (any (text_eq e.path) seen) [
    | true ↦ first_seen seen errs
    | false ↦ e.path ∷ first_seen (e.path ∷ seen) errs
  ]

  abbrev pub merged_or_group : List ValidationError → List ValidationError
  merged_or_group group = elim (merge_disjunction_group group) [ some e ↦ e ∷ [] | none ↦ group ]

  abbrev collapse_groups : List Text → List ValidationError → List ValidationError
  collapse_groups [] errs = []
  collapse_groups (path ∷ paths) errs =
      merged_or_group (group_at path errs) ++ collapse_groups paths errs

  unfoldable pub collapse_disjunction_errors : List ValidationError → List ValidationError
  unfolding first_seen
  collapse_disjunction_errors errs = collapse_groups (first_seen [] errs) errs

  group_at-ne-nil :
      (e : ValidationError) (errs : List ValidationError) → group_at e.path (e ∷ errs) ≢ []
  group_at-ne-nil e errs = ground (arith, text_eq_refl e.path)

  merged_or_group-ne-nil : (group : List ValidationError) → group ≢ [] → merged_or_group group ≢ []
  merged_or_group-ne-nil group h = ground arith

  append-ne-nil {ℓ} : {A : Type ℓ} (xs ys : List A) → xs ≢ [] → xs ++ ys ≢ []
  append-ne-nil [] ys h = absurd (h refl)
  append-ne-nil (x ∷ xs) ys h = cc

  -- Collapsing never loses the failure: some error is left if there was one.
  pub collapse-ne-nil :
      (errs : List ValidationError) → errs ≢ [] → collapse_disjunction_errors errs ≢ []
  unfolding collapse_disjunction_errors
  collapse-ne-nil [] h = absurd (h refl)
  collapse-ne-nil (e ∷ errs) h =
      append-ne-nil _ _
        (merged_or_group-ne-nil (group_at e.path (e ∷ errs)) (group_at-ne-nil e errs))
