-- ===== src/Examples/Paths.antt =====
-- Reads and writes by path.
use schemix.Prelude.{
  ℕ, pos, ◌≡◌, ◌≢◌, ◌↔◌, refl, Text, text, Option, none, some, List, inl, ◌⊎◌, [], ◌∷◌,
}
use schemix.Value.{null, str, number, int, object, nil_map, Entries, end, entry}
use schemix.Nested.{get_nested, set_nested, delete_nested}
use schemix.Nested.Segments.{segments}
use schemix.Nested.Laws.{Diverge, get_nested-set_nested, get_nested-set_nested-Diverge}
use schemix.Nested.Panics.{HitsNil, set_nested-none_iff}
use schemix.Nested.Deletes.{get_nested-delete_nested, get_nested-delete_nested-Diverge}
use schemix.Examples.{person}

abbrev city : Text
city = text "address.city"

abbrev moved : Entries
moved = entry (text "age") (number int (pos 3)) (
    entry (text "name") (str (text "Ann"))
      (entry (text "address") (object (entry (text "city") (str (text "Rome")) end)) end))

moves : set_nested person city (str (text "Rome")) ≡ some moved
unfolding set_nested schemix.Prelude.text_eq
moves = refl

get_nested-set_nested_example : get_nested (some moved) city ≡ str (text "Rome")
get_nested-set_nested_example = get_nested-set_nested person moved (str (text "Rome")) city moves

apart : Diverge (segments city) (segments (text "age"))
unfolding segments
apart = inl cc

get_nested-set_nested-Diverge_example :
    get_nested (some moved) (text "age") ≡ get_nested (some person) (text "age")
get_nested-set_nested-Diverge_example =
    get_nested-set_nested-Diverge person moved (str (text "Rome")) city (text "age") apart moves

-- The address is a nil map.
abbrev unset : Entries
unset = entry (text "address") nil_map end

set_nested-none_iff_example :
    (set_nested unset city (str (text "Rome")) ≡ none) ↔ HitsNil unset (segments city)
set_nested-none_iff_example = set_nested-none_iff unset city (str (text "Rome"))

panics : set_nested unset city (str (text "Rome")) ≡ none
unfolding set_nested schemix.Prelude.text_eq
panics = refl

get_nested-delete_nested_example : get_nested (some (delete_nested moved city)) city ≡ null
get_nested-delete_nested_example = get_nested-delete_nested moved city

get_nested-delete_nested-Diverge_example :
    get_nested (some (delete_nested moved city)) (text "age") ≡ get_nested (some moved) (text "age")
get_nested-delete_nested-Diverge_example =
    get_nested-delete_nested-Diverge moved city (text "age") apart

two_segments : segments city ≡ text "address" ∷ text "city" ∷ []
unfolding segments
two_segments = refl
