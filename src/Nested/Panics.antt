-- ===== src/Nested/Panics.antt =====
-- setNestedValue of path.go: when it panics.
use schemix.Prelude.{
  ℕ, zero, suc, ◌<◌, Text, ◌≡◌, ◌≢◌, ◌↔◌, ◌∙◌, refl, sym, ap, none, some, List, [], ◌∷◌, length,
  take, arith, Option, inl, inr,
}
use schemix.Value.{Value, object, nil_map, Entries, lookup}
use schemix.Nested.Segments.{segments}
use schemix.Nested.{
  index, get_at, set_at, set_nested, set_segments, map_at, found_nil, absent, put_back,
}
use schemix.Nested.Laws.{index-eq, MapAt-cases, map_at-found, get_at-absent}

-- A proper prefix of the path, not empty, leads to a nil map.
abbrev pub HitsNil : Entries → List Text → Type 0
HitsNil m path = (n : ℕ) × (0 < n) × (n < length path) × (get_at (object m) (take n path) ≡ nil_map)

pub map_at-found_nil : (o : Option Value) → map_at o ≡ found_nil → o ≡ some nil_map
unfolding map_at
map_at-found_nil none h = ground arith
map_at-found_nil (some v) h = ground arith

put_back-none :
    (part : Text) (m : Entries) (o : Option Entries) → (put_back part m o ≡ none) ↔ (o ≡ none)
put_back-none part m none = (λ _. refl, λ _. refl)
put_back-none part m (some n) = (λ h. cc, λ h. cc)

pub get_at-object :
    (m n : Entries) (a : Text) (p : List Text)
    → lookup a m ≡ some (object n)
    → get_at (object m) (a ∷ p) ≡ get_at (object n) p
unfolding get_at
get_at-object m n a p e = ap (λ x. get_at x p) (index-eq m a (object n) e)

get_at-nil :
    (m : Entries) (a : Text) → lookup a m ≡ some nil_map → get_at (object m) (a ∷ []) ≡ nil_map
unfolding get_at
get_at-nil m a e = index-eq m a nil_map e

set_at-none→HitsNil :
    (p : List Text) (m : Entries) (a : Text) (v : Value) → set_at m a p v ≡ none → HitsNil m (a ∷ p)
unfolding set_at
set_at-none→HitsNil [] m a v h = cc
set_at-none→HitsNil (b ∷ p) m a v h = elim (MapAt-cases (map_at (lookup a m))) [
  | inl (n, e) ↦
      let (k, pos, fits, hit) =
        set_at-none→HitsNil p n b v ((put_back-none a m (set_at n b p v)).0 (ground arith)) in
      (
        suc k,
        omega arith,
        omega arith,
        get_at-object m n a (take k (b ∷ p)) (map_at-found (lookup a m) n e) ∙ hit,
      )
  | inr (inl e) ↦ (1, omega arith, omega arith, get_at-nil m a (map_at-found_nil (lookup a m) e))
  | inr (inr e) ↦ ground arith
]

absent-ne-nil :
    (m : Entries) (a : Text) → map_at (lookup a m) ≡ absent → get_at (object m) (a ∷ []) ≢ nil_map
unfolding get_at map_at index
absent-ne-nil m a h e = ground arith

HitsNil→set_at-none :
    (p : List Text) (m : Entries) (a : Text) (v : Value) → HitsNil m (a ∷ p) → set_at m a p v ≡ none
unfolding set_at get_at
HitsNil→set_at-none [] m a v (n, pos, fits, hit) = absurd (omega arith)
HitsNil→set_at-none (b ∷ p) m a v (zero, pos, fits, hit) = absurd (omega arith)
HitsNil→set_at-none (b ∷ p) m a v (suc zero, pos, fits, hit) =
    elim (MapAt-cases (map_at (lookup a m))) [
      | inl (n, e) ↦ cc (get_at-object m n a [] (map_at-found (lookup a m) n e))
      | inr (inl e) ↦ ground arith
      | inr (inr e) ↦ absurd (absent-ne-nil m a e hit)
    ]
HitsNil→set_at-none (b ∷ p) m a v (suc (suc k), pos, fits, hit) =
    elim (MapAt-cases (map_at (lookup a m))) [
      | inl (n, e) ↦
          let below : HitsNil n (b ∷ p) = (
            suc k,
            omega arith,
            omega arith,
            sym (get_at-object m n a (b ∷ take k p) (map_at-found (lookup a m) n e)) ∙ hit,
          ) in
          ground (arith, HitsNil→set_at-none p n b v below)
      | inr (inl e) ↦ ground arith
      | inr (inr e) ↦ cc (get_at-absent m a b (take k p) e)
    ]

set_segments-none_iff :
    (m : Entries) (p : List Text) (v : Value) → (set_segments m p v ≡ none) ↔ HitsNil m p
set_segments-none_iff m [] v = (λ h. cc, λ (n, pos, fits, hit). absurd (omega arith))
set_segments-none_iff m (a ∷ p) v = (set_at-none→HitsNil p m a v, HitsNil→set_at-none p m a v)

-- A write by path panics exactly when a proper prefix of the path, of at least one part, leads to
-- a nil map.
pub set_nested-none_iff :
    (m : Entries) (path : Text) (v : Value)
    → (set_nested m path v ≡ none) ↔ HitsNil m (segments path)
unfolding set_nested
set_nested-none_iff m path v = set_segments-none_iff m (segments path) v
