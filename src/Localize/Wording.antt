-- ===== src/Localize/Wording.antt =====
-- Catalog.Localize of localize.go: every error gets a text that is not empty.
use schemix.Prelude.{
  ℕ, zero, suc, Text, text, ◌≡◌, refl, false, Option, none, some, [], ◌∷◌, ◌++◌, if-case,
}
use schemix.GoLib.{GoLib}
use schemix.Errors.{ValidationError}
use schemix.Localize.Templates.{is_empty_text, expand}
use schemix.Localize.Catalogs.{
  Localizer, no_localizer, catalog, foreign, Catalog, Heap, max_fallback_depth, relabel,
  lookup_label, Wording, panicked, no_wording, wording, as_wording, suffix_in_chain, suffix_behind,
  own_suffix_or, add_suffix, finish_body, render, or_next, resolve_behind, resolve, or_generic,
  localize,
}

-- No catalog has a nil pointer behind it.
abbrev pub NotNil : Localizer → Type 0
NotNil (catalog none) = ⊥
NotNil _ = Unit

abbrev pub Linked : Heap → Type 0
Linked heap = (id : ℕ) → NotNil (heap id).fallback

-- The chain was followed to a suffix, and nothing panics.
abbrev pub Suffix : Option Text → Type 0
Suffix none = ⊥
Suffix (some s) = Unit

-- A wording is not empty, and nothing panics.
abbrev pub Safe : Wording → Type 0
Safe panicked = ⊥
Safe no_wording = Unit
Safe (wording s) = is_empty_text s ≡ false

as_wording-Safe : (s : Text) → Safe (as_wording s)
as_wording-Safe [] = tt
as_wording-Safe (c ∷ s) = refl

pub or_next-Safe : (w next : Wording) → Safe w → Safe next → Safe (or_next w next)
or_next-Safe panicked next h k = absurd h
or_next-Safe no_wording next h k = k
or_next-Safe (wording s) next h k = h

or_generic-text : (w : Wording) → Safe w → (c : ℕ) × (s : Text) × (or_generic w ≡ some (c ∷ s))
or_generic-text panicked h = absurd h
or_generic-text no_wording h = (b'v', text "alidation failed", refl)
or_generic-text (wording []) h = absurd (cc)
or_generic-text (wording (c ∷ s)) h = (c, s, refl)

module _ (go : GoLib) (heap : Heap) where
  add_suffix-Safe :
      (e : ValidationError) (body : Text) (o : Option Text)
      → Suffix o
      → Safe (add_suffix go heap e body o)
  add_suffix-Safe e body none h = absurd h
  add_suffix-Safe e body (some suffix) h = as_wording-Safe (body ++ expand go suffix e)

  finish_body-Safe :
      (left : ℕ) (c : Catalog) (e : ValidationError) (body : Text)
      → Suffix (suffix_in_chain go heap left c)
      → Safe (finish_body go heap left c e body)
  finish_body-Safe left c e [] h = tt
  finish_body-Safe left c e (b ∷ body) h =
      if-case Safe (is_empty_text e.suggestion) (wording (b ∷ body)) _ (λ _. refl)
        (λ _. add_suffix-Safe e (b ∷ body) (suffix_in_chain go heap left c) h)

  pub render-Safe :
      (left : ℕ) (c : Catalog) (e : ValidationError)
      → Suffix (suffix_in_chain go heap left c)
      → Safe (render go heap left c e)
  unfolding render
  render-Safe left c e h = finish_body-Safe left c e _ h

module _ (go : GoLib) (heap : Heap) (linked : Linked heap) where
  suffix_behind-Suffix :
      (l : Localizer) (next : Catalog → Option Text)
      → NotNil l
      → ((c : Catalog) → NotNil c.fallback → Suffix (next c))
      → Suffix (suffix_behind go heap l next)
  suffix_behind-Suffix no_localizer next h k = tt
  suffix_behind-Suffix (catalog none) next h k = absurd h
  suffix_behind-Suffix (catalog (some id)) next h k = k (heap id) (linked id)
  suffix_behind-Suffix (foreign f) next h k = tt

  own_suffix_or-Suffix :
      (own : Text) (next : Option Text) → Suffix next → Suffix (own_suffix_or own next)
  own_suffix_or-Suffix [] next h = h
  own_suffix_or-Suffix (c ∷ s) next h = tt

  suffix_in_chain-Suffix :
      (left : ℕ) (c : Catalog) → NotNil c.fallback → Suffix (suffix_in_chain go heap left c)
  unfolding suffix_in_chain
  suffix_in_chain-Suffix zero c h = tt
  suffix_in_chain-Suffix (suc left) c h = own_suffix_or-Suffix c.suggestion_suffix _ (
      suffix_behind-Suffix c.fallback (suffix_in_chain go heap left) h
        (suffix_in_chain-Suffix left))

  resolve_behind-Safe :
      (l : Localizer) (e : ValidationError) (next : Option ℕ → ValidationError → Wording)
      → ((c : Option ℕ) (e' : ValidationError) → Safe (next c e'))
      → Safe (resolve_behind go heap l e next)
  resolve_behind-Safe no_localizer e next k = tt
  resolve_behind-Safe (catalog behind) e next k = k behind e
  resolve_behind-Safe (foreign f) e next k = as_wording-Safe (f e)

  pub resolve-Safe :
      (left : ℕ) (c : Option ℕ) (e : ValidationError) → Safe (resolve go heap left c e)
  unfolding resolve
  resolve-Safe zero c e = tt
  resolve-Safe (suc left) none e = tt
  resolve-Safe (suc left) (some id) e =
      let e' = relabel (lookup_label (heap id) e.path) e in
      or_next-Safe (render go heap (suc left) (heap id) e') _
        (render-Safe go heap (suc left) (heap id) e'
          (suffix_in_chain-Suffix (suc left) (heap id) (linked id)))
        (resolve_behind-Safe (heap id).fallback e' (resolve go heap left) (resolve-Safe left))

  -- If no catalog has a nil pointer to a catalog behind it, then Localize returns on every catalog,
  -- the nil one and those in a cycle included, and on every error, and the text is not empty.
  pub localize_text :
      (c : Option ℕ) (e : ValidationError)
      → (b : ℕ) × (s : Text) × (localize go heap c e ≡ some (b ∷ s))
  unfolding localize
  localize_text c e =
      or_generic-text (resolve go heap max_fallback_depth c e) (resolve-Safe max_fallback_depth c e)
