-- ===== src/Localize/Indices.antt =====
-- NormalizePath of localize.go: the indices of a path collapsed.
use schemix.Prelude.{
  ℕ, zero, suc, ◌<◌, Text, ◌≡◌, refl, sym, ap, ap₂, ◌==◌, ◌∙◌, Bool, true, false, ◌&&◌, Option,
  none, some, [], ◌∷◌, ◌++◌, all, length, leb, arith, if-case, Bool-cases, inl, inr, if◌then◌else◌,
}
use schemix.Localize.Spans.{
  has_byte, next_span, next_span-append, next_span-none, Span, next_span-Span, Span-shorter,
}

unfoldable pub is_all_digits : Text → Bool
is_all_digits [] = false
is_all_digits (c ∷ s) = all (λ d. leb b'0' d && leb d b'9') (c ∷ s)

-- the brackets with what stands in them, or without an index
abbrev pub kept_inner : Text → Text
kept_inner inner = if is_all_digits inner then [] else inner

abbrev pub collapsed : Text → Option (Text × Text × Text) → (Text → Text) → Text
collapsed rest none next = rest
collapsed rest (some (before, inner, behind)) next =
    before ++ b'[' ∷ (kept_inner inner ++ b']' ∷ next behind)

-- The loop, with fuel.
unfoldable pub normalize_from : ℕ → Text → Text
unfolding next_span is_all_digits
normalize_from zero rest = rest
normalize_from (suc f) rest = collapsed rest (next_span b'[' b']' rest) (normalize_from f)

unfoldable pub normalize_path : Text → Text
unfolding normalize_from
normalize_path path =
    let normalized = normalize_from (suc (length path)) path in
    if has_byte b'[' path then normalized else path

collapsed-fuel :
    (s : Text) (o : Option (Text × Text × Text)) (next next' : Text → Text)
    → Span b'[' b']' s o
    → ((t : Text) → length t < length s → next t ≡ next' t)
    → collapsed s o next ≡ collapsed s o next'
collapsed-fuel s none next next' h k = refl
collapsed-fuel s (some (before, inner, behind)) next next' (_, _, e) k =
    ap (λ t. before ++ b'[' ∷ (kept_inner inner ++ b']' ∷ t))
      (k behind (Span-shorter b'[' b']' s before inner behind e))

normalize_from-enough :
    (f g : ℕ) (s : Text) → length s < f → length s < g → normalize_from f s ≡ normalize_from g s
unfolding normalize_from
normalize_from-enough zero g s h k = absurd (omega arith)
normalize_from-enough (suc f) zero s h k = absurd (omega arith)
normalize_from-enough (suc f) (suc g) s h k =
    collapsed-fuel s (next_span b'[' b']' s) (normalize_from f) (normalize_from g)
      (next_span-Span b'[' b']' s)
      λ t shorter. normalize_from-enough f g t (omega arith) (omega arith)

normalize_from-plain : (f : ℕ) (s : Text) → has_byte b'[' s ≡ false → normalize_from f s ≡ s
unfolding normalize_from
normalize_from-plain zero s h = refl
normalize_from-plain (suc f) s h =
    ap (λ o. collapsed s o (normalize_from f)) (next_span-none b'[' b']' s h)

-- The test before the loop changes nothing.
normalize_path-from : (f : ℕ) (s : Text) → length s < f → normalize_path s ≡ normalize_from f s
unfolding normalize_path
normalize_path-from f s h =
    if-case (λ t. t ≡ normalize_from f s) (has_byte b'[' s) _ _
      (λ _. normalize_from-enough (suc (length s)) f s (omega arith) h)
      (λ absent. sym (normalize_from-plain f s absent))

digit-apart : (d : ℕ) → (leb b'0' d && leb d b'9') ≡ true → (d == b']') ≡ false
digit-apart d h = ground arith

digits-apart : (s : Text) → all (λ d. leb b'0' d && leb d b'9') s ≡ true → has_byte b']' s ≡ false
digits-apart [] h = refl
digits-apart (d ∷ s) h = ground (arith, digit-apart d, digits-apart s)

digits-closed : (s : Text) → is_all_digits s ≡ true → has_byte b']' s ≡ false
unfolding is_all_digits
digits-closed [] h = absurd (cc)
digits-closed (d ∷ s) h = digits-apart (d ∷ s) h

-- The first span, and the rest by itself.
normalize_path-append :
    (before inner behind : Text)
    → has_byte b'[' before ≡ false
    → has_byte b']' inner ≡ false
    → normalize_path (before ++ b'[' ∷ (inner ++ b']' ∷ behind))
      ≡ before ++ b'[' ∷ (kept_inner inner ++ b']' ∷ normalize_path behind)
unfolding normalize_from
normalize_path-append before inner behind h k =
    let s = before ++ b'[' ∷ (inner ++ b']' ∷ behind) in
    let f = length s in
    normalize_path-from (suc f) s (omega arith)
    ∙ ap (λ o. collapsed s o (normalize_from f))
        (next_span-append b'[' b']' before inner behind h k)
    ∙ ap (λ t. before ++ b'[' ∷ (kept_inner inner ++ b']' ∷ t))
        (sym (normalize_path-from f behind (Span-shorter b'[' b']' s before inner behind refl)))

kept_inner_twice : (inner : Text) → kept_inner (kept_inner inner) ≡ kept_inner inner
unfolding is_all_digits
kept_inner_twice inner = elim (Bool-cases (is_all_digits inner)) [
  | inl p ↦
      ap (λ (b : Bool). kept_inner (if b then [] else inner)) p
      ∙ ap (λ (b : Bool). if b then [] else inner) (sym p)
  | inr p ↦ ap (λ (b : Bool). kept_inner (if b then [] else inner)) p
]

kept_inner-free :
    (inner : Text) → has_byte b']' inner ≡ false → has_byte b']' (kept_inner inner) ≡ false
kept_inner-free inner h =
    if-case (λ t. has_byte b']' t ≡ false) (is_all_digits inner) [] inner (λ _. refl) (λ _. h)

collapsed_again :
    (s : Text) (o : Option (Text × Text × Text)) (next : Text → Text)
    → Span b'[' b']' s o
    → normalize_path s ≡ collapsed s o next
    → ((t : Text) → length t < length s → normalize_path (next t) ≡ next t)
    → normalize_path (collapsed s o next) ≡ collapsed s o next
collapsed_again s none next h e k = e
collapsed_again s (some (before, inner, behind)) next (free, closed, e) _ k =
    normalize_path-append before (kept_inner inner) (next behind) free
      (kept_inner-free inner closed)
    ∙ ap₂ (λ i t. before ++ b'[' ∷ (i ++ b']' ∷ t)) (kept_inner_twice inner)
        (k behind (Span-shorter b'[' b']' s before inner behind e))

normalize_from_again :
    (f : ℕ) (s : Text) → length s < f → normalize_path (normalize_from f s) ≡ normalize_from f s
unfolding normalize_from
normalize_from_again zero s h = absurd (omega arith)
normalize_from_again (suc f) s h =
    collapsed_again s (next_span b'[' b']' s) (normalize_from f) (next_span-Span b'[' b']' s)
      (normalize_path-from (suc f) s h) λ t shorter. normalize_from_again f t (omega arith)

-- A path that is normalized is not changed by a second NormalizePath.
pub normalize_path_twice :
    (path : Text) → normalize_path (normalize_path path) ≡ normalize_path path
normalize_path_twice path =
    let enough = normalize_path-from (suc (length path)) path (omega arith) in
    ap normalize_path enough
    ∙ normalize_from_again (suc (length path)) path (omega arith)
    ∙ sym enough

-- Every index of a list has one normalized path, so one label: where the path before the index has
-- no bracket, NormalizePath drops the digits of the index and normalizes what stands behind it.
pub normalize_path-index :
    (before behind : Text) (c : ℕ) (digits : Text)
    → has_byte b'[' before ≡ false
    → is_all_digits (c ∷ digits) ≡ true
    → normalize_path (before ++ b'[' ∷ ((c ∷ digits) ++ b']' ∷ behind))
      ≡ before ++ b'[' ∷ b']' ∷ normalize_path behind
normalize_path-index before behind c digits h k =
    normalize_path-append before (c ∷ digits) behind h (digits-closed (c ∷ digits) k)
    ∙ ap
        (λ (b : Bool).
          before ++ b'[' ∷ ((if b then [] else c ∷ digits) ++ b']' ∷ normalize_path behind))
        k
