-- ===== src/Suggest/Distance.antt =====
-- levenshteinFold of suggest.go, compared with the recursive definition of the distance.
use schemix.Prelude.{
  ℕ, suc, ◌+◌, min, ◌≡◌, ◌∙◌, sym, ap, refl, List, [], ◌∷◌, ◌++◌, length, arith, reverse,
  reverse-cons, append_assoc, append-nil, ap₂, length-append,
}
use schemix.GoLib.{GoLib}
use schemix.Suggest.{cost, row_from, next_row, rows, first_row, last_or_zero, levenshtein_runes}

module _ (go : GoLib) where
  -- The edit distance, read from the heads of the lists: delete, insert, or replace at a cost.
  unfoldable pub edit_distance : List ℕ → List ℕ → ℕ
  edit_distance [] b = length b
  edit_distance (x ∷ a) [] = suc (length a)
  edit_distance (x ∷ a) (y ∷ b) =
      min (edit_distance a (y ∷ b) + 1)
        (min (edit_distance (x ∷ a) b + 1) (edit_distance a b + cost go x y))

  -- The row of distances from `ra` to the prefixes of a word: `rb`, reversed, and more of `b`.
  row_of : List ℕ → List ℕ → List ℕ → List ℕ
  row_of ra rb [] = edit_distance ra rb ∷ []
  row_of ra rb (y ∷ b) = edit_distance ra rb ∷ row_of ra (y ∷ rb) b

  row_tail : List ℕ → List ℕ → List ℕ → List ℕ
  row_tail ra rb [] = []
  row_tail ra rb (y ∷ b) = row_of ra (y ∷ rb) b

  row_of-cons : (ra rb b : List ℕ) → row_of ra rb b ≡ edit_distance ra rb ∷ row_tail ra rb b
  unfolding row_of row_tail
  row_of-cons ra rb [] = refl
  row_of-cons ra rb (y ∷ b) = refl

  row_from-row_tail :
      (x : ℕ) (ra rb b : List ℕ)
      → row_from go x (edit_distance ra rb) (edit_distance (x ∷ ra) rb) (row_tail ra rb b) b
        ≡ row_tail (x ∷ ra) rb b
  unfolding row_from row_tail edit_distance
  row_from-row_tail x ra rb [] = refl
  row_from-row_tail x ra rb (y ∷ b) =
      ap (λ r. row_from go x (edit_distance ra rb) (edit_distance (x ∷ ra) rb) r (y ∷ b))
        (row_of-cons ra (y ∷ rb) b)
      ∙ ap (λ r. edit_distance (x ∷ ra) (y ∷ rb) ∷ r) (row_from-row_tail x ra (y ∷ rb) b)
      ∙ sym (row_of-cons (x ∷ ra) (y ∷ rb) b)

  first_row-row_of : (rb b : List ℕ) → first_row (length rb) b ≡ row_of [] rb b
  unfolding first_row row_of edit_distance
  first_row-row_of rb [] = refl
  first_row-row_of rb (y ∷ b) = ap (λ r. length rb ∷ r) (first_row-row_of (y ∷ rb) b)

  edit-nil : (ra : List ℕ) → edit_distance ra [] ≡ length ra
  unfolding edit_distance
  edit-nil [] = refl
  edit-nil (x ∷ ra) = refl

  next_row-row_of :
      (x : ℕ) (ra b : List ℕ)
      → next_row go (suc (length ra)) x (row_of ra [] b) b ≡ row_of (x ∷ ra) [] b
  unfolding next_row edit_distance
  next_row-row_of x ra b =
      ap (λ r. next_row go (suc (length ra)) x r b) (row_of-cons ra [] b)
      ∙ ap (λ r. suc (length ra) ∷ r) (row_from-row_tail x ra [] b)
      ∙ sym (row_of-cons (x ∷ ra) [] b)

  reverse-cons-append : (x : ℕ) (a c : List ℕ) → reverse a ++ x ∷ c ≡ reverse (x ∷ a) ++ c
  reverse-cons-append x a c = simp (reverse-cons, append_assoc)

  rows-row_of :
      (a ra b : List ℕ) → rows go (length ra) a (row_of ra [] b) b ≡ row_of (reverse a ++ ra) [] b
  unfolding rows
  rows-row_of [] ra b = refl
  rows-row_of (x ∷ a) ra b =
      ap (λ r. rows go (suc (length ra)) a r b) (next_row-row_of x ra b)
      ∙ rows-row_of a (x ∷ ra) b
      ∙ ap (λ r. row_of r [] b) (reverse-cons-append x a ra)

  last-cons :
      (d : ℕ) (ra rb b : List ℕ) → last_or_zero (d ∷ row_of ra rb b) ≡ last_or_zero (row_of ra rb b)
  unfolding row_of last_or_zero
  last-cons d ra rb [] = refl
  last-cons d ra rb (y ∷ b) = refl

  last-row_of :
      (ra rb b : List ℕ) → last_or_zero (row_of ra rb b) ≡ edit_distance ra (reverse b ++ rb)
  unfolding row_of last_or_zero
  last-row_of ra rb [] = refl
  last-row_of ra rb (y ∷ b) =
      last-cons (edit_distance ra rb) ra (y ∷ rb) b
      ∙ last-row_of ra (y ∷ rb) b
      ∙ ap (edit_distance ra) (reverse-cons-append y b rb)

  rows-edit_distance :
      (a b : List ℕ)
      → last_or_zero (rows go 0 a (first_row 0 b) b) ≡ edit_distance (reverse a) (reverse b)
  rows-edit_distance a b =
      ap (λ r. last_or_zero (rows go 0 a r b)) (first_row-row_of [] b)
      ∙ ap last_or_zero (rows-row_of a [] b)
      ∙ last-row_of (reverse a ++ []) [] b
      ∙ ap₂ edit_distance (append-nil (reverse a)) (append-nil (reverse b))

  length-reverse : (a : List ℕ) → length (reverse a) ≡ length a
  length-reverse [] = refl
  length-reverse (x ∷ a) =
      rw reverse-cons (omega (arith, length-append (reverse a) (x ∷ []), length-reverse a))

  -- The rolling row ends with the edit distance, by its recursive definition, of the two words
  -- read from their ends; the returns for an empty word are the same distance.
  pub levenshtein_runes-edit_distance :
      (a b : List ℕ) → levenshtein_runes go a b ≡ edit_distance (reverse a) (reverse b)
  unfolding levenshtein_runes
  levenshtein_runes-edit_distance [] b = unfold edit_distance in sym (length-reverse b)
  levenshtein_runes-edit_distance (x ∷ a) [] =
      sym (edit-nil (reverse (x ∷ a)) ∙ length-reverse (x ∷ a))
  levenshtein_runes-edit_distance (x ∷ a) (y ∷ b) = rows-edit_distance (x ∷ a) (y ∷ b)
