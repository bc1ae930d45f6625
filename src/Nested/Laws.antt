-- ===== src/Nested/Laws.antt =====
-- setNestedValue of path.go: what it changes, and what it leaves.
use schemix.Prelude.{
  Text, text_eq, text_eq_iff, ◌≡◌, ◌≢◌, ◌∙◌, sym, refl, ap, Option, none, some, List, [], ◌∷◌,
  arith, if◌then◌else◌, Option-cases, inl, inr, ◌⊎◌,
}
use schemix.Value.{Value, null, object, Entries, end, entry, lookup, insert}
use schemix.Value.Maps.{lookup-insert, lookup-insert_self}
use schemix.Nested.Segments.{segments, segments-ne-nil}
use schemix.Nested.{
  index, get_at, get_nested, fresh, MapAt, found, found_nil, absent, map_at, put_back, set_at,
  set_nested, set_segments,
}

pub map_at-found : (o : Option Value) (m : Entries) → map_at o ≡ found m → o ≡ some (object m)
unfolding map_at
map_at-found none m h = ground arith
map_at-found (some v) m h = ground arith

pub MapAt-cases : (a : MapAt) → ((m : Entries) × (a ≡ found m)) ⊎ ((a ≡ found_nil) ⊎ (a ≡ absent))
MapAt-cases (found m) = inl (m, refl)
MapAt-cases found_nil = inr (inl refl)
MapAt-cases absent = inr (inr refl)

pub index-eq : (m : Entries) (k : Text) (v : Value) → lookup k m ≡ some v → index (object m) k ≡ v
unfolding index
index-eq m k v h = ground arith

pub index-insert : (k : Text) (v : Value) (m : Entries) → index (object (insert k v m)) k ≡ v
index-insert k v m = index-eq (insert k v m) k v (lookup-insert_self k v m)

put_back-some :
    (part : Text) (m m' : Entries) (o : Option Entries)
    → put_back part m o ≡ some m'
    → (n : Entries) × (o ≡ some n) × (m' ≡ insert part (object n) m)
put_back-some part m m' none h = cc
put_back-some part m m' (some n) h = (n, refl, cc)

pub get_at-entry :
    (m m' : Entries) (part : Text) (path : List Text) (v : Value)
    → m' ≡ insert part v m
    → get_at (object m') (part ∷ path) ≡ get_at v path
unfolding get_at
get_at-entry m m' part path v e = ap (λ x. get_at x path) (rw e (index-insert part v m))

get_at-fresh : (path : List Text) (v : Value) → get_at (fresh path v) path ≡ v
unfolding fresh
get_at-fresh [] v = unfold get_at in refl
get_at-fresh (part ∷ path) v =
    get_at-entry end (entry part (fresh path v) end) part path (fresh path v)
      (unfold insert in refl)
    ∙ get_at-fresh path v

-- What a write stores in the map `m` under the first part of a longer path.
set_at-step :
    (m m' : Entries) (part key : Text) (path : List Text) (v : Value)
    → set_at m part (key ∷ path) v ≡ some m'
    → ((n n' : Entries) × (lookup part m ≡ some (object n))
        × (set_at n key path v ≡ some n')
        × (m' ≡ insert part (object n') m))
      ⊎ ((map_at (lookup part m) ≡ absent) × (m' ≡ insert part (fresh (key ∷ path) v) m))
unfolding set_at
set_at-step m m' part key path v h = elim (MapAt-cases (map_at (lookup part m))) [
  | inl (n, e) ↦
      let (n', new, done) = put_back-some part m m' (set_at n key path v) (ground arith) in
      inl (n, n', map_at-found (lookup part m) n e, new, done)
  | inr (inl e) ↦ ground arith
  | inr (inr e) ↦ inr (e, ground arith)
]

get_at-set_at :
    (path : List Text) (m m' : Entries) (part : Text) (v : Value)
    → set_at m part path v ≡ some m'
    → get_at (object m') (part ∷ path) ≡ v
unfolding get_at
get_at-set_at [] m m' part v h = get_at-entry m m' part [] v (unfold set_at in cc)
get_at-set_at (key ∷ path) m m' part v h = elim (set_at-step m m' part key path v h) [
  | inl (n, n', old, new, e) ↦
      get_at-entry m m' part (key ∷ path) _ e ∙ get_at-set_at path n n' key v new
  | inr (_, e) ↦ get_at-entry m m' part (key ∷ path) _ e ∙ get_at-fresh (key ∷ path) v
]

-- Two paths that part ways: neither runs through the other.
abbrev pub Diverge : List Text → List Text → Type 0
Diverge [] q = ⊥
Diverge (a ∷ p) [] = ⊥
Diverge (a ∷ p) (b ∷ q) = (a ≢ b) ⊎ ((a ≡ b) × Diverge p q)

pub index-ne :
    (m m' : Entries) (a b : Text) (v : Value)
    → a ≢ b
    → m' ≡ insert a v m
    → index (object m') b ≡ index (object m) b
unfolding index
index-ne m m' a b v h e = rw e (ground (arith, lookup-insert a b v m, text_eq_iff a b))

pub get_at-null : (q : List Text) → get_at null q ≡ null
unfolding get_at
get_at-null [] = refl
get_at-null (b ∷ q) = get_at-null q

index-step :
    (m : Entries) (a b : Text) (v : Value)
    → index (object (insert a v m)) b ≡ (if text_eq a b then v else index (object m) b)
unfolding index
index-step m a b v = ground (arith, lookup-insert a b v m)

get_at-fresh-Diverge : (p q : List Text) (v : Value) → Diverge p q → get_at (fresh p v) q ≡ null
unfolding get_at fresh lookup
get_at-fresh-Diverge [] q v d = absurd d
get_at-fresh-Diverge (a ∷ p) [] v d = absurd d
get_at-fresh-Diverge (a ∷ p) (b ∷ q) v (inl h) = ground (arith, text_eq_iff a b, get_at-null q)
get_at-fresh-Diverge (a ∷ p) (b ∷ q) v (inr (h, d)) =
    ground (arith, text_eq_iff a b, get_at-null q, get_at-fresh-Diverge p q v d)

index-not_map : (v : Value) (b : Text) → map_at (some v) ≡ absent → index v b ≡ null
unfolding map_at index
index-not_map (object m) b h = cc
index-not_map null b h = refl
index-not_map _ b h = refl

pub get_at-absent :
    (m : Entries) (a b : Text) (q : List Text)
    → map_at (lookup a m) ≡ absent
    → get_at (object m) (a ∷ b ∷ q) ≡ null
unfolding get_at
get_at-absent m a b q h = elim (Option-cases (lookup a m)) [
  | inl e ↦ ground (arith, get_at-null q)
  | inr (v, e) ↦
      ap (λ x. get_at (index x b) q) (index-eq m a v e)
      ∙ ap (λ x. get_at x q) (index-not_map v b (rw e at h))
      ∙ get_at-null q
]

set_at-insert :
    (path : List Text) (m m' : Entries) (part : Text) (v : Value)
    → set_at m part path v ≡ some m'
    → (w : Value) × (m' ≡ insert part w m)
set_at-insert [] m m' part v h = (v, unfold set_at in cc)
set_at-insert (key ∷ path) m m' part v h = elim (set_at-step m m' part key path v h) [
  | inl (n, n', _, _, e) ↦ (object n', e)
  | inr (_, e) ↦ (fresh (key ∷ path) v, e)
]

get_at-set_at-Diverge :
    (p : List Text) (m m' : Entries) (a b : Text) (q : List Text) (v : Value)
    → set_at m a p v ≡ some m'
    → Diverge (a ∷ p) (b ∷ q)
    → get_at (object m') (b ∷ q) ≡ get_at (object m) (b ∷ q)
get_at-set_at-Diverge p m m' a b q v h (inl ne) =
    let (w, e) = set_at-insert p m m' a v h in
    unfold get_at in ap (λ x. get_at x q) (index-ne m m' a b w ne e)
get_at-set_at-Diverge [] m m' a b q v h (inr (_, d)) = absurd d
get_at-set_at-Diverge (c ∷ p) m m' a b [] v h (inr (_, d)) = absurd d
get_at-set_at-Diverge (c ∷ p) m m' a b (d ∷ q) v h (inr (same, parted)) =
    rw (← same) (elim (set_at-step m m' a c p v h) [
      | inl (n, n', old, new, e) ↦
          get_at-entry m m' a (d ∷ q) (object n') e
          ∙ get_at-set_at-Diverge p n n' c d q v new parted
          ∙ sym (unfold get_at in ap (λ x. get_at x (d ∷ q)) (index-eq m a (object n) old))
      | inr (gone, e) ↦
          get_at-entry m m' a (d ∷ q) (fresh (c ∷ p) v) e
          ∙ get_at-fresh-Diverge (c ∷ p) (d ∷ q) v parted
          ∙ sym (get_at-absent m a d q gone)
    ])

module _ (m m' : Entries) (v : Value) where
  get_at-set_segments :
      (p : List Text) → p ≢ [] → set_segments m p v ≡ some m' → get_at (object m') p ≡ v
  get_at-set_segments [] h e = absurd (h refl)
  get_at-set_segments (a ∷ p) h e = get_at-set_at p m m' a v e

  get_at-set_segments-Diverge :
      (p q : List Text)
      → Diverge p q
      → set_segments m p v ≡ some m'
      → get_at (object m') q ≡ get_at (object m) q
  get_at-set_segments-Diverge [] q d e = absurd d
  get_at-set_segments-Diverge (a ∷ p) [] d e = absurd d
  get_at-set_segments-Diverge (a ∷ p) (b ∷ q) d e = get_at-set_at-Diverge p m m' a b q v e d

  -- A value written by path, where the write does not panic, is the value read back by that path.
  pub get_nested-set_nested :
      (path : Text) → set_nested m path v ≡ some m' → get_nested (some m') path ≡ v
  unfolding set_nested get_nested
  get_nested-set_nested path e = get_at-set_segments (segments path) (segments-ne-nil path) e

  -- A write by path leaves the value at every path that parts ways with it, whether the write
  -- created maps on its way, replaced a value that is no map, or found the maps it needed.
  pub get_nested-set_nested-Diverge :
      (path other : Text)
      → Diverge (segments path) (segments other)
      → set_nested m path v ≡ some m'
      → get_nested (some m') other ≡ get_nested (some m) other
  unfolding set_nested get_nested
  get_nested-set_nested-Diverge path other d e =
      get_at-set_segments-Diverge (segments path) (segments other) d e
