-- ===== src/Localize/Spans.antt =====
-- The loops of localize.go over a text with brackets, `{name}` or `[index]`: IndexByte, and the cut
-- of the text into what stands before a bracket, in it, and behind it.
use schemix.Prelude.{
  ℕ, ◌<◌, Text, ◌≡◌, refl, sym, ap, ◌∙◌, subst, Bool, true, false, Option, none, some, [], ◌∷◌,
  ◌++◌, any, length, length-append, ◌==◌, arith, if-case, if◌then◌else◌,
}

-- `strings.ContainsRune(s, c)` for an ASCII rune
abbrev pub has_byte : ℕ → Text → Bool
has_byte c s = any (λ d. d == c) s

abbrev prepend : ℕ → Option (Text × Text) → Option (Text × Text)
prepend d none = none
prepend d (some (before, behind)) = some (d ∷ before, behind)

-- `s[:i]` and `s[i+1:]` with `i = strings.IndexByte(s, c)`; `none` for -1
unfoldable pub cut_at : ℕ → Text → Option (Text × Text)
cut_at c [] = none
cut_at c (d ∷ s) = let rest = prepend d (cut_at c s) in if d == c then some ([], s) else rest

abbrev pub close_span : Text → Option (Text × Text) → Option (Text × Text × Text)
close_span before none = none
close_span before (some (inner, behind)) = some (before, inner, behind)

abbrev pub open_span : ℕ → Option (Text × Text) → Option (Text × Text × Text)
open_span closing none = none
open_span closing (some (before, rest)) = close_span before (cut_at closing rest)

-- The first bracket of the text: what stands before it, in it, and behind it. `none` where there is
-- none, or where it is not closed.
unfoldable pub next_span : ℕ → ℕ → Text → Option (Text × Text × Text)
unfolding cut_at
next_span opening closing rest = open_span closing (cut_at opening rest)

abbrev Cut : ℕ → Text → Option (Text × Text) → Type 0
Cut c s none = has_byte c s ≡ false
Cut c s (some (before, behind)) = (has_byte c before ≡ false) × (s ≡ before ++ c ∷ behind)

prepend-Cut :
    (c d : ℕ) (s : Text) (o : Option (Text × Text))
    → (d == c) ≡ false
    → Cut c s o
    → Cut c (d ∷ s) (prepend d o)
prepend-Cut c d s none e h = ground arith
prepend-Cut c d s (some (before, behind)) e (h, k) = (ground arith, ap (λ t. d ∷ t) k)

byte_eq : (a b : ℕ) → (a == b) ≡ true → a ≡ b
byte_eq a b h = ground arith

byte_refl : (a : ℕ) → (a == a) ≡ true
byte_refl a = ground arith

-- The two sides hold the text, and the first is free of the byte.
pub cut_at-Cut : (c : ℕ) (s : Text) → Cut c s (cut_at c s)
unfolding cut_at
cut_at-Cut c [] = refl
cut_at-Cut c (d ∷ s) =
    if-case (Cut c (d ∷ s)) (d == c) (some ([], s)) (prepend d (cut_at c s))
      (λ e. (refl, ap (λ a. a ∷ s) (byte_eq d c e)))
      (λ e. prepend-Cut c d s (cut_at c s) e (cut_at-Cut c s))

pub cut_at-append :
    (c : ℕ) (before behind : Text)
    → has_byte c before ≡ false
    → cut_at c (before ++ c ∷ behind) ≡ some (before, behind)
unfolding cut_at
cut_at-append c [] behind h =
    ap (λ b. if b then some ([], behind) else prepend c (cut_at c behind)) (byte_refl c)
cut_at-append c (d ∷ before) behind h =
    if-case (λ o. o ≡ some (d ∷ before, behind)) (d == c) _ _ (λ e. absurd (ground arith))
      (λ e. ap (prepend d) (cut_at-append c before behind (ground arith)))

pub cut_at_absent : (c : ℕ) (s : Text) → has_byte c s ≡ false → cut_at c s ≡ none
unfolding cut_at
cut_at_absent c [] h = refl
cut_at_absent c (d ∷ s) h =
    if-case (λ o. o ≡ none) (d == c) _ _ (λ e. absurd (ground arith))
      (λ e. ap (prepend d) (cut_at_absent c s (ground arith)))

pub next_span-append :
    (opening closing : ℕ) (before inner behind : Text)
    → has_byte opening before ≡ false
    → has_byte closing inner ≡ false
    → next_span opening closing (before ++ opening ∷ (inner ++ closing ∷ behind))
      ≡ some (before, inner, behind)
unfolding next_span
next_span-append opening closing before inner behind h k =
    ap (open_span closing) (cut_at-append opening before (inner ++ closing ∷ behind) h)
    ∙ ap (close_span before) (cut_at-append closing inner behind k)

-- What a span is: the text in three parts.
abbrev pub Span : ℕ → ℕ → Text → Option (Text × Text × Text) → Type 0
Span opening closing s none = Unit
Span opening closing s (some (before, inner, behind)) =
    (has_byte opening before ≡ false)
    × (has_byte closing inner ≡ false)
    × (s ≡ before ++ opening ∷ (inner ++ closing ∷ behind))

close_span-Span :
    (opening closing : ℕ) (s before rest : Text) (o : Option (Text × Text))
    → has_byte opening before ≡ false
    → s ≡ before ++ opening ∷ rest
    → Cut closing rest o
    → Span opening closing s (close_span before o)
close_span-Span opening closing s before rest none h e k = tt
close_span-Span opening closing s before rest (some (inner, behind)) h e (k, f) =
    (h, k, e ∙ ap (λ t. before ++ opening ∷ t) f)

open_span-Span :
    (opening closing : ℕ) (s : Text) (o : Option (Text × Text))
    → Cut opening s o
    → Span opening closing s (open_span closing o)
open_span-Span opening closing s none h = tt
open_span-Span opening closing s (some (before, rest)) (h, e) =
    close_span-Span opening closing s before rest (cut_at closing rest) h e
      (cut_at-Cut closing rest)

pub next_span-Span :
    (opening closing : ℕ) (s : Text) → Span opening closing s (next_span opening closing s)
unfolding next_span
next_span-Span opening closing s =
    open_span-Span opening closing s (cut_at opening s) (cut_at-Cut opening s)

-- What stands behind the span is shorter than the text.
pub Span-shorter :
    (opening closing : ℕ) (s before inner behind : Text)
    → s ≡ before ++ opening ∷ (inner ++ closing ∷ behind)
    → length behind < length s
Span-shorter opening closing s before inner behind e =
    subst (λ t. length behind < length t) (sym e)
      (omega (
        arith,
        length-append before (opening ∷ (inner ++ closing ∷ behind)),
        length-append inner (closing ∷ behind),
      ))

-- No opening bracket, no span.
pub next_span-none :
    (opening closing : ℕ) (s : Text)
    → has_byte opening s ≡ false
    → next_span opening closing s ≡ none
unfolding next_span
next_span-none opening closing s h = ap (open_span closing) (cut_at_absent opening s h)
