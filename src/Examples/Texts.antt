-- ===== src/Examples/Texts.antt =====
-- Distances, suggestions, names of modes, queries of a result.
use schemix.Prelude.{
  ◌≡◌, ◌≤◌, ◌<◌, ◌↔◌, refl, All, reverse, length, Text, text, false, none, some, List, [], ◌∷◌,
}
use schemix.Errors.{Result, ValidationError, plain_error, type_mismatch, enum_invalid, cue}
use schemix.FailMode.{fail_priority, parse_fail_mode, fail_mode_string, parse_fail_mode-string}
use schemix.Suggest.{levenshtein_runes, levenshtein_fold, suggest_closest, max_suggestion_distance}
use schemix.Suggest.Distance.{edit_distance, levenshtein_runes-edit_distance}
use schemix.Suggest.Closest.{IsOneOf, suggest_closest_sound}
use schemix.Examples.{ascii}

levenshtein_runes-edit_distance_example :
    levenshtein_runes ascii (text "kitten") (text "sitting")
    ≡ edit_distance ascii (reverse (text "kitten")) (reverse (text "sitting"))
levenshtein_runes-edit_distance_example =
    levenshtein_runes-edit_distance ascii (text "kitten") (text "sitting")

kitten_sitting : levenshtein_runes ascii (text "kitten") (text "Sitting") ≡ 3
unfolding levenshtein_runes
kitten_sitting = refl

abbrev colours : List Text
colours = text "red" ∷ text "green" ∷ text "blue" ∷ []

suggests : suggest_closest ascii (text "grean") colours ≡ text "green"
unfolding suggest_closest levenshtein_fold
suggests = refl

suggest_closest_sound_example :
    IsOneOf (text "green") colours
    × (levenshtein_fold ascii (text "grean") (text "green") ≤ max_suggestion_distance)
    × (levenshtein_fold ascii (text "grean") (text "green") < length (text "grean"))
    × All
        (λ d.
          levenshtein_fold ascii (text "grean") (text "green")
          ≤ levenshtein_fold ascii (text "grean") d)
        colours
suggest_closest_sound_example =
    suggest_closest_sound ascii (text "grean") colours (text "green") suggests cc

parse_fail_mode-string_example :
    (parse_fail_mode (text "priority") ≡ some fail_priority)
    ↔ (text "priority" ≡ fail_mode_string fail_priority)
parse_fail_mode-string_example = parse_fail_mode-string (text "priority") fail_priority

abbrev two_errors : List ValidationError
two_errors =
    plain_error type_mismatch (text "age") cue []
    ∷ plain_error enum_invalid (text "kind") cue []
    ∷ []

abbrev failed : Result
failed = record { valid = false; errors = two_errors; output = none }
