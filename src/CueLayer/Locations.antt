-- ===== src/CueLayer/Locations.antt =====
-- The paths of errors, of cue_layer.go.
use schemix.Prelude.{
  ℕ, ◌+◌, ◌*◌, ◌-◌, ◌^◌, pos, Text, text_eq, Bool, true, false, ◌&&◌, ◌||◌, List, [], ◌∷◌, ◌++◌,
  leb, ltb, has_prefix, if◌then◌else◌,
}
use schemix.GoLib.{print_int}

-- `parent[i]`
unfoldable pub indexed_path : Text → ℕ → Text
unfolding print_int
indexed_path parent index = parent ++ b'[' ∷ print_int (pos index) ++ b']' ∷ []

all_digits : Text → Bool
all_digits [] = true
all_digits (c ∷ s) = leb b'0' c && leb c b'9' && all_digits s

digits_value : ℕ → Text → ℕ
digits_value acc [] = acc
digits_value acc (c ∷ s) = digits_value (acc * 10 + (c - b'0')) s

-- `strconv.ParseUint(segment, 10, 64)` succeeds
unfoldable pub is_uint64 : Text → Bool
unfolding all_digits digits_value
is_uint64 [] = false
is_uint64 (c ∷ s) = all_digits (c ∷ s) && ltb (digits_value 0 (c ∷ s)) (2 ^ 64)

abbrev dotted : Text → Text → Text
dotted [] segment = segment
dotted (c ∷ built) segment = (c ∷ built) ++ b'.' ∷ segment

unfoldable pub join_segments : Text → List Text → Text
unfolding is_uint64
join_segments built [] = built
join_segments built (segment ∷ segments) =
    join_segments
      (if is_uint64 segment then built ++ b'[' ∷ segment ++ b']' ∷ [] else dotted built segment)
      segments

-- The path lies at `parent` or below it.
unfoldable pub at_or_below : Text → Text → Bool
at_or_below parent path =
    text_eq path parent
    || has_prefix path (parent ++ b'.' ∷ [])
    || has_prefix path (parent ++ b'[' ∷ [])

abbrev is_blank : Text → Bool
is_blank [] = true
is_blank _ = false

unfoldable pub format_cue_error_path : Text → List Text → Text
unfolding join_segments at_or_below
format_cue_error_path parent [] = parent
format_cue_error_path parent (s ∷ segments) =
    let formatted = join_segments [] (s ∷ segments) in
    if is_blank parent || at_or_below parent formatted
    then formatted
    else parent ++ b'.' ∷ formatted
