-- ===== src/Nested/Deletes.antt =====
-- deleteNestedKey of path.go: what it removes, and what it leaves.
use schemix.Prelude.{
  Text, text_eq_iff, text_eq_refl, ◌≡◌, ◌≢◌, ◌∙◌, refl, sym, ap, some, List, [], ◌∷◌, arith, inl,
  inr, ◌⊎◌,
}
use schemix.Value.{null, object, Entries, lookup, insert, remove}
use schemix.Value.Maps.{lookup-remove}
use schemix.Nested.Segments.{segments, segments-ne-nil}
use schemix.Nested.{
  index, get_at, get_nested, delete_at, delete_nested, delete_segments, map_at, found, found_nil,
  absent,
}
use schemix.Nested.Laws.{
  MapAt-cases, map_at-found, get_at-absent, get_at-null, get_at-entry, index-ne, Diverge,
}
use schemix.Nested.Panics.{map_at-found_nil, get_at-object}

delete_at-found :
    (m n : Entries) (a b : Text) (p : List Text)
    → map_at (lookup a m) ≡ found n
    → delete_at m a (b ∷ p) ≡ insert a (object (delete_at n b p)) m
unfolding delete_at
delete_at-found m n a b p e = ground arith

delete_at-other :
    (m : Entries) (a b : Text) (p : List Text)
    → (map_at (lookup a m) ≡ found_nil) ⊎ (map_at (lookup a m) ≡ absent)
    → delete_at m a (b ∷ p) ≡ m
unfolding delete_at
delete_at-other m a b p e = ground arith

get_at-below_nil :
    (m : Entries) (a b : Text) (p : List Text)
    → map_at (lookup a m) ≡ found_nil
    → get_at (object m) (a ∷ b ∷ p) ≡ null
unfolding get_at index
get_at-below_nil m a b p e = ground (arith, map_at-found_nil (lookup a m) e, get_at-null p)

get_at-other :
    (m : Entries) (a b : Text) (p : List Text)
    → (map_at (lookup a m) ≡ found_nil) ⊎ (map_at (lookup a m) ≡ absent)
    → get_at (object m) (a ∷ b ∷ p) ≡ null
get_at-other m a b p (inl e) = get_at-below_nil m a b p e
get_at-other m a b p (inr e) = get_at-absent m a b p e

get_at-remove : (m : Entries) (a : Text) → get_at (object (remove a m)) (a ∷ []) ≡ null
unfolding get_at index
get_at-remove m a = ground (arith, lookup-remove a a m, text_eq_refl a)

get_at-delete_at :
    (p : List Text) (m : Entries) (a : Text) → get_at (object (delete_at m a p)) (a ∷ p) ≡ null
get_at-delete_at [] m a = unfold delete_at in get_at-remove m a
get_at-delete_at (b ∷ p) m a = elim (MapAt-cases (map_at (lookup a m))) [
  | inl (n, e) ↦
      get_at-entry m (delete_at m a (b ∷ p)) a (b ∷ p) (object (delete_at n b p))
        (delete_at-found m n a b p e)
      ∙ get_at-delete_at p n b
  | inr e ↦
      ap (λ x. get_at (object x) (a ∷ b ∷ p)) (delete_at-other m a b p e) ∙ get_at-other m a b p e
]

index-remove_ne :
    (m : Entries) (a b : Text) → a ≢ b → index (object (remove a m)) b ≡ index (object m) b
unfolding index
index-remove_ne m a b h = ground (arith, lookup-remove a b m, text_eq_iff a b)

-- What holds of the entry under another key holds of every path below it.
delete_at-index_ne :
    (p : List Text) (m : Entries) (a b : Text)
    → a ≢ b
    → index (object (delete_at m a p)) b ≡ index (object m) b
delete_at-index_ne [] m a b h = unfold delete_at in index-remove_ne m a b h
delete_at-index_ne (c ∷ p) m a b h = elim (MapAt-cases (map_at (lookup a m))) [
  | inl (n, e) ↦
      index-ne m (delete_at m a (c ∷ p)) a b (object (delete_at n c p)) h
        (delete_at-found m n a c p e)
  | inr e ↦ ap (λ x. index (object x) b) (delete_at-other m a c p e)
]

get_at-delete_at-Diverge :
    (p : List Text) (m : Entries) (a b : Text) (q : List Text)
    → Diverge (a ∷ p) (b ∷ q)
    → get_at (object (delete_at m a p)) (b ∷ q) ≡ get_at (object m) (b ∷ q)
get_at-delete_at-Diverge p m a b q (inl ne) =
    unfold get_at in ap (λ x. get_at x q) (delete_at-index_ne p m a b ne)
get_at-delete_at-Diverge [] m a b q (inr (_, d)) = absurd d
get_at-delete_at-Diverge (c ∷ p) m a b [] (inr (_, d)) = absurd d
get_at-delete_at-Diverge (c ∷ p) m a b (d ∷ q) (inr (same, parted)) =
    rw (← same) (elim (MapAt-cases (map_at (lookup a m))) [
      | inl (n, e) ↦
          get_at-entry m (delete_at m a (c ∷ p)) a (d ∷ q) (object (delete_at n c p))
            (delete_at-found m n a c p e)
          ∙ get_at-delete_at-Diverge p n c d q parted
          ∙ sym (get_at-object m n a (d ∷ q) (map_at-found (lookup a m) n e))
      | inr e ↦ ap (λ x. get_at (object x) (a ∷ d ∷ q)) (delete_at-other m a c p e)
    ])

get_at-delete_segments :
    (m : Entries) (p : List Text) → p ≢ [] → get_at (object (delete_segments m p)) p ≡ null
get_at-delete_segments m [] h = absurd (h refl)
get_at-delete_segments m (a ∷ p) h = get_at-delete_at p m a

get_at-delete_segments-Diverge :
    (m : Entries) (p q : List Text)
    → Diverge p q
    → get_at (object (delete_segments m p)) q ≡ get_at (object m) q
get_at-delete_segments-Diverge m [] q d = absurd d
get_at-delete_segments-Diverge m (a ∷ p) [] d = absurd d
get_at-delete_segments-Diverge m (a ∷ p) (b ∷ q) d = get_at-delete_at-Diverge p m a b q d

-- After a delete by path nothing is read back by that path.
pub get_nested-delete_nested :
    (m : Entries) (path : Text) → get_nested (some (delete_nested m path)) path ≡ null
unfolding delete_nested get_nested
get_nested-delete_nested m path = get_at-delete_segments m (segments path) (segments-ne-nil path)

-- After a delete by path, every path that parts ways with it reads what it read before.
pub get_nested-delete_nested-Diverge :
    (m : Entries) (path other : Text)
    → Diverge (segments path) (segments other)
    → get_nested (some (delete_nested m path)) other ≡ get_nested (some m) other
unfolding delete_nested get_nested
get_nested-delete_nested-Diverge m path other d =
    get_at-delete_segments-Diverge m (segments path) (segments other) d
