-- ===== src/Suggest/Closest.antt =====
-- suggestClosest of suggest.go, compared with all candidates.
use schemix.Prelude.{
  ℕ, ◌+◌, ◌≤◌, ◌<◌, Text, ◌≡◌, ◌≢◌, refl, List, [], ◌∷◌, All, length, arith, ltb, Bool-cases, ◌⊎◌,
  inl, inr,
}
use schemix.GoLib.{GoLib}
use schemix.Suggest.{
  levenshtein_fold, closest_from, suggest_closest, max_suggestion_distance, confident,
}

-- `c` stands in the list.
abbrev pub IsOneOf : Text → List Text → Type 0
IsOneOf c [] = ⊥
IsOneOf c (d ∷ ds) = (c ≡ d) ⊎ IsOneOf c ds

module _ (go : GoLib) (value : Text) where
  -- The pair that the loop ends with: a candidate at its distance, or still the start.
  pub record IsNearest (best : Text) (dist : ℕ) (candidates : List Text) (end : Text × ℕ)
      : Type 0 where
    pub least : All (λ c. end.1 ≤ levenshtein_fold go value c) candidates
    pub falls : end.1 ≤ dist
    pub origin :
        ((end.0 ≡ best) × (end.1 ≡ dist))
        ⊎ (IsOneOf end.0 candidates × (levenshtein_fold go value end.0 ≡ end.1))

  closest_from-IsNearest :
      (best : Text) (dist : ℕ) (candidates : List Text)
      → IsNearest best dist candidates (closest_from go value best dist candidates)
  unfolding closest_from
  closest_from-IsNearest best dist [] = record {
    least = tt;
    falls = omega arith;
    origin = inl (refl, refl);
  }
  closest_from-IsNearest best dist (c ∷ cs) =
      elim (Bool-cases (ltb (levenshtein_fold go value c) dist)) [
        | inl nearer ↦
            let rest = closest_from-IsNearest c (levenshtein_fold go value c) cs in
            rw nearer (record {
              least = (rest.falls, rest.least);
              falls = ground arith;
              origin = ground arith;
            })
        | inr farther ↦
            let rest = closest_from-IsNearest best dist cs in
            rw farther (record {
              least = (ground arith, rest.least);
              falls = rest.falls;
              origin = ground arith;
            })
      ]

  confident-eq :
      (end : Text × ℕ) (c : Text)
      → confident go value end ≡ c
      → c ≢ []
      → (end.0 ≡ c) × (end.1 ≤ max_suggestion_distance) × (end.1 < length (go.runes value))
  confident-eq (best, dist) c e h = ground arith

  -- The candidate that the loop ends with, when it is near enough to be offered.
  offered :
      (candidates : List Text) (end : Text × ℕ) (c : Text)
      → IsNearest [] (max_suggestion_distance + 1) candidates end
      → (end.0 ≡ c) × (end.1 ≤ max_suggestion_distance) × (end.1 < length (go.runes value))
      → IsOneOf c candidates
        × (levenshtein_fold go value c ≤ max_suggestion_distance)
        × (levenshtein_fold go value c < length (go.runes value))
        × All (λ d. levenshtein_fold go value c ≤ levenshtein_fold go value d) candidates
  offered candidates (best, dist) c near (same, close, short) = elim near.origin [
    | inl (_, far) ↦ absurd (omega arith)
    | inr (listed, exact) ↦
        rw (← same) (listed, rw exact close, rw exact short, rw exact near.least)
  ]

-- A suggestion that is not empty is one of the candidates, at most two edits from the value and
-- fewer than the value has runes, and no candidate is nearer.
pub suggest_closest_sound :
    (go : GoLib) (value : Text) (candidates : List Text) (c : Text)
    → suggest_closest go value candidates ≡ c
    → c ≢ []
    → IsOneOf c candidates
      × (levenshtein_fold go value c ≤ max_suggestion_distance)
      × (levenshtein_fold go value c < length (go.runes value))
      × All (λ d. levenshtein_fold go value c ≤ levenshtein_fold go value d) candidates
unfolding suggest_closest
suggest_closest_sound go [] candidates c e h = absurd (h (cc))
suggest_closest_sound go (x ∷ value) [] c e h = absurd (h (cc))
suggest_closest_sound go (x ∷ value) (d ∷ ds) c e h =
    let end = closest_from go (x ∷ value) [] (max_suggestion_distance + 1) (d ∷ ds) in
    offered go (x ∷ value) (d ∷ ds) end c
      (closest_from-IsNearest go (x ∷ value) [] (max_suggestion_distance + 1) (d ∷ ds))
      (confident-eq go (x ∷ value) end c e h)
