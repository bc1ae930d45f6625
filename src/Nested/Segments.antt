-- ===== src/Nested/Segments.antt =====
-- The parts that the loops of path.go and `findCUEField` cut off a dotted path, one by one, by
-- `strings.IndexByte(path, '.')`: everything up to the first dot, then the same for the rest.
use schemix.Prelude.{Text, ◌==◌, List, [], ◌∷◌, ◌++◌, if◌then◌else◌, ◌≡◌, ◌≢◌, refl, arith, ℕ}

abbrev extend : ℕ → List Text → List Text
extend c [] = (c ∷ []) ∷ []
extend c (part ∷ path) = (c ∷ part) ∷ path

unfoldable pub segments : Text → List Text
segments [] = [] ∷ []
segments (c ∷ path) = let rest = segments path in if c == b'.' then [] ∷ rest else extend c rest

-- `strings.Join(parts, ".")`
unfoldable pub join_dots : List Text → Text
join_dots [] = []
join_dots (part ∷ []) = part
join_dots (part ∷ next ∷ path) = part ++ b'.' ∷ join_dots (next ∷ path)

extend-ne-nil : (c : ℕ) (parts : List Text) → extend c parts ≢ []
extend-ne-nil c [] = cc
extend-ne-nil c (part ∷ path) = cc

pub segments-ne-nil : (path : Text) → segments path ≢ []
unfolding segments
segments-ne-nil [] = cc
segments-ne-nil (c ∷ path) = ground (arith, extend-ne-nil c (segments path))

join-extend :
    (c : ℕ) (parts : List Text) → parts ≢ [] → join_dots (extend c parts) ≡ c ∷ join_dots parts
unfolding join_dots
join-extend c [] h = absurd (h refl)
join-extend c (part ∷ []) h = refl
join-extend c (part ∷ next ∷ path) h = refl

join-nil : (parts : List Text) → parts ≢ [] → join_dots ([] ∷ parts) ≡ b'.' ∷ join_dots parts
unfolding join_dots
join-nil [] h = absurd (h refl)
join-nil (part ∷ path) h = refl

-- Nothing of the path is lost: its parts, joined by dots, are the path.
pub join_dots-segments : (path : Text) → join_dots (segments path) ≡ path
unfolding segments
join_dots-segments [] = unfold join_dots in refl
join_dots-segments (c ∷ path) = ground (
  arith,
  join-extend c (segments path) (segments-ne-nil path),
  join-nil (segments path) (segments-ne-nil path),
  join_dots-segments path,
)
