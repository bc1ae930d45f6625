-- ===== src/Examples/Checks.antt =====
-- The checks of values in plain Go, on a bounded integer and on a list.
use schemix.Prelude.{
  pos, ◌≡◌, ◌≢◌, ◌↔◌, ◌⊎◌, refl, any, Text, text, text_eq, true, false, none, some, List, [], ◌∷◌,
  eqb_ℤ,
}
use schemix.Value.{number, str, int, Items, nil, cons, list}
use schemix.Value.Float.{float_of_int}
use schemix.Errors.{range_violation}
use schemix.Fast.{Descriptor, constraint_range}
use schemix.Fast.Number.{validate_fast_int64_range}
use schemix.Fast.Check.{validate_fast, validate_fast_elements}
use schemix.Fast.IntRange.{InIntRange, int64_range_exact}
use schemix.Fast.Enum.{member, new_string_enum_set, new_int_enum_set}
use schemix.Fast.Sets.{member-new_set}
use schemix.Fast.Elements.{
  AllItems, Decided, rejected_from, validate_fast_elements-Decided, validate_fast_elements-rejected,
}
use schemix.Detail.{bound_from_detail}
use schemix.Examples.{ascii}

-- `int & >=0 & <150`
abbrev age_range : Descriptor
age_range = record {
  kind = constraint_range;
  expect_string = false;
  expect_int = true;
  expect_float = false;
  expect_bool = false;
  expect_number = false;
  regex = [];
  has_min = true;
  has_max = true;
  min_float = 0;
  max_float = 0;
  min_int64 = pos 0;
  max_int64 = pos 150;
  use_int64 = true;
  min_excl = false;
  max_excl = true;
  string_enums = none;
  int_enums = none;
  float_enums = none;
  string_enum_set = none;
  int_enum_set = none;
}

too_old :
    (validate_fast_int64_range age_range (pos 150)).detail ≡ text "value 150 out of bound <150"
unfolding validate_fast_int64_range schemix.GoLib.print_int
too_old = refl

bound_of_too_old : bound_from_detail (text "value 150 out of bound <150") ≡ text "<150"
unfolding bound_from_detail
bound_of_too_old = refl

one_as_float : float_of_int (pos 1) ≡ 0x3ff0000000000000
unfolding float_of_int
one_as_float = refl

int64_range_exact_example :
    (((validate_fast_int64_range age_range (pos 150)).valid ≡ true)
      ↔ InIntRange age_range (pos 150))
    × ((validate_fast_int64_range age_range (pos 150)).handled ≡ true)
    × (((validate_fast_int64_range age_range (pos 150)).valid ≡ true)
        ⊎ ((validate_fast_int64_range age_range (pos 150)).code ≡ range_violation))
int64_range_exact_example = int64_range_exact age_range (pos 150) refl

-- The list `[3, 200, "x"]`.
abbrev ages : Items
ages = cons (number int (pos 3)) (cons (number int (pos 200)) nil)

abbrev mixed : Items
mixed = cons (str (text "x")) ages

validate_fast_elements-Decided_example :
    (validate_fast_elements ascii age_range (list mixed) ≢ none)
    ↔ AllItems (Decided ascii age_range) mixed
validate_fast_elements-Decided_example = validate_fast_elements-Decided ascii age_range mixed

ages-Decided : AllItems (Decided ascii age_range) ages
unfolding validate_fast
ages-Decided = (refl, (refl, tt))

validate_fast_elements-rejected_example :
    validate_fast_elements ascii age_range (list ages)
    ≡ some (rejected_from (validate_fast ascii age_range) 0 ages)
validate_fast_elements-rejected_example =
    validate_fast_elements-rejected ascii age_range ages ages-Decided

abbrev letters : List Text
letters = text "a" ∷ text "b" ∷ text "c" ∷ text "d" ∷ text "e" ∷ text "f" ∷ text "g" ∷ text "h" ∷ []

member-new_set_example :
    (member text_eq (new_string_enum_set letters) letters (text "h")
      ≡ any (text_eq (text "h")) letters)
    × (member eqb_ℤ (new_int_enum_set (pos 1 ∷ [])) (pos 1 ∷ []) (pos 2)
        ≡ any (eqb_ℤ (pos 2)) (pos 1 ∷ []))
member-new_set_example = member-new_set letters (text "h") (pos 1 ∷ []) (pos 2)
