-- ===== src/Localize/Coverage.antt =====
-- The built-in catalogs of localize.go: no error is left to the generic message.
use schemix.Prelude.{
  ℕ, Text, ◌≡◌, refl, sym, ap, ◌∙◌, subst, false, Option, none, some, [], ◌∷◌, ◌++◌, inl, inr, ◌⊎◌,
  if-case,
}
use schemix.GoLib.{GoLib}
use schemix.Errors.{ErrorCode, ValidationError}
use schemix.Localize.Templates.{is_empty_text}
use schemix.Localize.Catalogs.{
  Message, Catalog, Heap, Wording, panicked, no_wording, wording, as_wording, or_next, relabel,
  lookup_label, add_suffix, finish_body, suffix_in_chain, render, no_localizer, resolve, resolve_in,
  resolve_behind, max_fallback_depth,
}
use schemix.Localize.Wording.{Safe, Suffix, or_next-Safe, render-Safe}
use schemix.Localize.Tables.{en_us, zh_cn}
use schemix.Localize.Entries.{
  message_of, body_of, Renders, relabelled, en_us-labelled, zh_cn-labelled, en_us-Renders,
  zh_cn-Renders,
}

-- The wording is not missing.
abbrev pub Worded : Wording → Type 0
Worded no_wording = ⊥
Worded _ = Unit

append-Worded : (b : ℕ) (s t : Text) → Worded (as_wording ((b ∷ s) ++ t))
append-Worded b s t = tt

pub or_next-Worded : (w next : Wording) → Worded w → Worded (or_next w next)
or_next-Worded panicked next h = tt
or_next-Worded no_wording next h = absurd h
or_next-Worded (wording s) next h = tt

pub relabel-path :
    (e : ValidationError) (o : Option Text)
    → is_empty_text (relabelled o e.path) ≡ false
    → is_empty_text (relabel o e).path ≡ false
relabel-path e none h = h
relabel-path e (some label) h = h

pub wording-of : (w : Wording) → Safe w → Worded w → (b : ℕ) × (s : Text) × (w ≡ wording (b ∷ s))
wording-of panicked h k = absurd h
wording-of no_wording h k = absurd k
wording-of (wording []) h k = absurd (cc)
wording-of (wording (b ∷ s)) h k = (b, s, refl)

module _ (go : GoLib) where
  body_of-path :
      (e : ValidationError) (m : Message)
      → Renders go m
      → (path : Text) → e.path ≡ path
      → is_empty_text path ≡ false
      → is_empty_text (body_of go m e) ≡ false
  body_of-path e m renders [] h k = absurd (cc)
  body_of-path e m renders (c ∷ p) h k =
      ap (λ path. is_empty_text (body_of go m (record e { path = path }))) h ∙ renders e c p

  module _ (heap : Heap) where
    add_suffix-Worded :
        (e : ValidationError) (b : ℕ) (s : Text) (o : Option Text)
        → Worded (add_suffix go heap e (b ∷ s) o)
    add_suffix-Worded e b s none = tt
    add_suffix-Worded e b s (some suffix) = tt

    pub finish_body-Worded :
        (left : ℕ) (c : Catalog) (e : ValidationError) (body : Text)
        → is_empty_text body ≡ false
        → Worded (finish_body go heap left c e body)
    finish_body-Worded left c e [] h = absurd (cc)
    finish_body-Worded left c e (b ∷ body) h =
        if-case Worded (is_empty_text e.suggestion) (wording (b ∷ body)) _ (λ _. tt)
          (λ _. add_suffix-Worded e b body (suffix_in_chain go heap left c))

    render-Worded :
        (left : ℕ) (c : Catalog) (e : ValidationError)
        → ((code : ErrorCode) → Renders go (message_of c code))
        → is_empty_text e.path ≡ false
        → Worded (render go heap left c e)
    unfolding render
    render-Worded left c e renders h =
        finish_body-Worded left c e (body_of go (message_of c e.code) e)
          (body_of-path e (message_of c e.code) (renders e.code) e.path refl h)

    -- A catalog that renders every code and labels the empty path has a wording for every error.
    resolve_in-Worded :
        (left : ℕ) (c : Catalog) (next : Option ℕ → ValidationError → Wording)
        → ((code : ErrorCode) → Renders go (message_of c code))
        → ((path : Text) → is_empty_text (relabelled (lookup_label c path) path) ≡ false)
        → (e : ValidationError)
        → Worded (resolve_in go heap left c (relabel (lookup_label c e.path) e) next)
    resolve_in-Worded left c next renders labelled e =
        let e' = relabel (lookup_label c e.path) e in
        or_next-Worded (render go heap left c e') _ (
          render-Worded left c e' renders
            (relabel-path e (lookup_label c e.path) (labelled e.path)))

    -- A catalog with a suffix of its own and nothing behind it does not panic.
    resolve_in-own :
        (left : ℕ) (c : Catalog) (e : ValidationError) (next : Option ℕ → ValidationError → Wording)
        → Suffix (suffix_in_chain go heap left c)
        → c.fallback ≡ no_localizer
        → Safe (resolve_in go heap left c e next)
    resolve_in-own left c e next h alone =
        or_next-Safe (render go heap left c e) (resolve_behind go heap c.fallback e next)
          (render-Safe go heap left c e h)
          (subst (λ l. Safe (resolve_behind go heap l e next)) (sym alone) tt)

    resolve-own :
        (c : Catalog) (id : ℕ) (e : ValidationError)
        → heap id ≡ c
        → ((code : ErrorCode) → Renders go (message_of c code))
        → ((path : Text) → is_empty_text (relabelled (lookup_label c path) path) ≡ false)
        → Suffix (suffix_in_chain go heap max_fallback_depth c)
        → c.fallback ≡ no_localizer
        → (b : ℕ) × (s : Text) × (resolve go heap max_fallback_depth (some id) e ≡ wording (b ∷ s))
    unfolding resolve
    resolve-own c id e h renders labelled suffix alone =
        let at = λ (c : Catalog).
          resolve_in go heap 8 c (relabel (lookup_label c e.path) e) (resolve go heap 7) in
        wording-of (at (heap id))
          (subst (λ c. Safe (at c)) (sym h)
            (resolve_in-own 8 c (relabel (lookup_label c e.path) e) (resolve go heap 7) suffix
              alone))
          (subst (λ c. Worded (at c)) (sym h)
            (resolve_in-Worded 8 c (resolve go heap 7) renders labelled e))

    -- The English and the Chinese catalog have a wording of their own for every error, whatever its
    -- code and its fields: the generic message is not needed.
    pub resolve_built_in :
        (id : ℕ) (e : ValidationError)
        → (heap id ≡ en_us) ⊎ (heap id ≡ zh_cn)
        → (b : ℕ) × (s : Text) × (resolve go heap max_fallback_depth (some id) e ≡ wording (b ∷ s))
    unfolding suffix_in_chain
    resolve_built_in id e (inl h) =
        resolve-own en_us id e h (en_us-Renders go) en_us-labelled tt refl
    resolve_built_in id e (inr h) =
        resolve-own zh_cn id e h (zh_cn-Renders go) zh_cn-labelled tt refl
