-- ===== src/Suggest.antt =====
-- suggest.go: the case-insensitive edit distance by one rolling row, and the closest candidate.
-- Strings are taken rune by rune. The buffer on the stack has no counterpart here.
pub mod Distance
pub mod Closest
use schemix.Prelude.{
  ℕ, zero, suc, ◌+◌, min, Text, Bool, ◌||◌, ltb, leb, ◌==◌, if◌then◌else◌, List, [], ◌∷◌, length,
}
use schemix.GoLib.{GoLib}

abbrev pub max_suggestion_distance : ℕ
max_suggestion_distance = 2

-- prev[j] = j, from j on
unfoldable pub first_row : ℕ → List ℕ → List ℕ
first_row j [] = j ∷ []
first_row j (cb ∷ b) = j ∷ first_row (suc j) b

module _ (go : GoLib) where
  unfoldable pub cost : ℕ → ℕ → ℕ
  cost ca cb = if ca == cb || go.to_lower_rune ca == go.to_lower_rune cb then 0 else 1

  -- The inner loop: `row` is prev[j..], `diag` the old prev[j-1] and `left` the new one.
  unfoldable pub row_from : ℕ → ℕ → ℕ → List ℕ → List ℕ → List ℕ
  unfolding cost
  row_from ca diag left (above ∷ row) (cb ∷ b) =
      let cur : ℕ = min (above + 1) (min (left + 1) (diag + cost ca cb)) in
      cur ∷ row_from ca above cur row b
  row_from ca diag left _ _ = []

  -- One round of the outer loop: prev[0] = i, then the inner loop.
  unfoldable pub next_row : ℕ → ℕ → List ℕ → List ℕ → List ℕ
  unfolding row_from
  next_row i ca [] b = []
  next_row i ca (diag ∷ row) b = i ∷ row_from ca diag i row b

  unfoldable pub rows : ℕ → List ℕ → List ℕ → List ℕ → List ℕ
  unfolding next_row
  rows i [] row b = row
  rows i (ca ∷ a) row b = rows (suc i) a (next_row (suc i) ca row b) b

-- prev[lb]
unfoldable pub last_or_zero : List ℕ → ℕ
last_or_zero [] = 0
last_or_zero (d ∷ []) = d
last_or_zero (d ∷ e ∷ row) = last_or_zero (e ∷ row)

module _ (go : GoLib) where
  unfoldable pub levenshtein_runes : List ℕ → List ℕ → ℕ
  unfolding rows first_row last_or_zero
  levenshtein_runes [] b = length b
  levenshtein_runes (ca ∷ a) [] = length (ca ∷ a)
  levenshtein_runes (ca ∷ a) (cb ∷ b) =
      last_or_zero (rows go 0 (ca ∷ a) (first_row 0 (cb ∷ b)) (cb ∷ b))

  unfoldable pub levenshtein_fold : Text → Text → ℕ
  unfolding levenshtein_runes
  levenshtein_fold a b = levenshtein_runes (go.runes a) (go.runes b)

  -- The loop of `suggestClosest`: the best candidate so far and its distance.
  unfoldable pub closest_from : Text → Text → ℕ → List Text → Text × ℕ
  closest_from value best best_dist [] = (best, best_dist)
  closest_from value best best_dist (c ∷ candidates) =
      let d = levenshtein_fold value c in
      let nearer = ltb d best_dist in
      closest_from value (if nearer then c else best) (if nearer then d else best_dist) candidates

  abbrev confident : Text → Text × ℕ → Text
  confident value (best, best_dist) =
      if ltb max_suggestion_distance best_dist
      then []
      else if leb (length (go.runes value)) best_dist
      then []
      else best

  unfoldable pub suggest_closest : Text → List Text → Text
  unfolding closest_from
  suggest_closest [] candidates = []
  suggest_closest value [] = []
  suggest_closest value candidates =
      confident value (closest_from value [] (max_suggestion_distance + 1) candidates)
