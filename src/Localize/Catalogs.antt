-- ===== src/Localize/Catalogs.antt =====
-- Catalog of localize.go: the wording of an error, from a catalog or from those behind it. The
-- catalogs lie in a heap, so that a chain of them may be a cycle, which the code bounds. A pointer
-- is `none` where it is nil.
use schemix.Prelude.{
  ℕ, zero, suc, Text, text, text_eq, Option, none, some, List, [], ◌∷◌, ◌++◌, if◌then◌else◌,
}
use schemix.GoLib.{GoLib}
use schemix.Errors.{ValidationError, Result}
use schemix.Localize.Indices.{normalize_path}
use schemix.Localize.Templates.{is_empty_text, expand}

pub record Message : Type 0 where
  pub template : Text
  pub fallback : Text

-- The interface `Localizer`, by what the code tells apart.
pub data Localizer : Type 0 where
  no_localizer : Localizer
  catalog : Option ℕ → Localizer
  foreign : (ValidationError → Text) → Localizer

pub record Catalog : Type 0 where
  pub messages : List (Text × Message)
  pub default : Message
  pub labels : List (Text × Text)
  pub suggestion_suffix : Text
  pub fallback : Localizer

abbrev pub Heap : Type 0
Heap = ℕ → Catalog

-- `m[key]` on a Go map
unfoldable pub at_key {ℓ} : {A : Type ℓ} → Text → List (Text × A) → Option A
at_key key [] = none
at_key key ((k, a) ∷ m) = if text_eq k key then some a else at_key key m

abbrev pub generic_failure_message : Text
generic_failure_message = text "validation failed"

abbrev pub max_fallback_depth : ℕ
max_fallback_depth = 8

abbrev pub or_normalized : List (Text × Text) → Text → Text → Option Text → Option Text
or_normalized labels path normalized (some label) = some label
or_normalized labels path normalized none =
    if text_eq normalized path then none else at_key normalized labels

-- The test for a map without labels changes nothing.
unfoldable pub lookup_label : Catalog → Text → Option Text
unfolding at_key normalize_path
lookup_label c path = elim c.labels [
  | [] ↦ none
  | l ∷ ls ↦ or_normalized (l ∷ ls) path (normalize_path path) (at_key path (l ∷ ls))
]

abbrev pub relabel : Option Text → ValidationError → ValidationError
relabel none e = e
relabel (some label) e = record e { path = label }

-- What rendering or resolving gives: a panic, no wording (the empty string), or a wording.
pub data Wording : Type 0 where
  panicked no_wording : Wording
  wording : Text → Wording

abbrev pub as_wording : Text → Wording
as_wording [] = no_wording
as_wording (c ∷ s) = wording (c ∷ s)

abbrev pub message_or : Catalog → Option Message → Message
message_or c none = c.default
message_or c (some msg) = msg

abbrev pub own_suffix_or : Text → Option Text → Option Text
own_suffix_or [] next = next
own_suffix_or (c ∷ s) next = some (c ∷ s)

abbrev pub first_text : Text → Text → Text
first_text [] second = second
first_text (c ∷ s) second = c ∷ s

abbrev pub or_next : Wording → Wording → Wording
or_next panicked next = panicked
or_next no_wording next = next
or_next (wording s) next = wording s

abbrev pub or_generic : Wording → Option Text
or_generic panicked = none
or_generic no_wording = some generic_failure_message
or_generic (wording s) = some s

abbrev both_done : Option Text → Option (List Text) → Option (List Text)
both_done none rest = none
both_done (some s) none = none
both_done (some s) (some out) = some (s ∷ out)

module _ (go : GoLib) (heap : Heap) where
  abbrev pub suffix_behind : Localizer → (Catalog → Option Text) → Option Text
  suffix_behind (catalog (some id)) next = next (heap id)
  suffix_behind (catalog none) next = none
  suffix_behind _ next = some []

  -- The first argument is what is left of the depth. A call on a nil pointer panics: `none`.
  unfoldable pub suffix_in_chain : ℕ → Catalog → Option Text
  suffix_in_chain zero c = some c.suggestion_suffix
  suffix_in_chain (suc left) c =
      own_suffix_or c.suggestion_suffix (suffix_behind c.fallback (suffix_in_chain left))

  abbrev pub add_suffix : ValidationError → Text → Option Text → Wording
  add_suffix e body none = panicked
  add_suffix e body (some suffix) = as_wording (body ++ expand go suffix e)

  abbrev pub finish_body : ℕ → Catalog → ValidationError → Text → Wording
  finish_body left c e [] = no_wording
  finish_body left c e (b ∷ body) =
      let suffixed = add_suffix e (b ∷ body) (suffix_in_chain left c) in
      if is_empty_text e.suggestion then wording (b ∷ body) else suffixed

  abbrev pub render_message : ℕ → Catalog → ValidationError → Message → Wording
  render_message left c e msg =
      finish_body left c e (first_text (expand go msg.template e) (expand go msg.fallback e))

  unfoldable pub render : ℕ → Catalog → ValidationError → Wording
  unfolding at_key expand suffix_in_chain
  render left c e = render_message left c e (message_or c (at_key e.code c.messages))

  abbrev pub resolve_behind :
      Localizer → ValidationError → (Option ℕ → ValidationError → Wording) → Wording
  resolve_behind no_localizer e next = no_wording
  resolve_behind (catalog behind) e next = next behind e
  resolve_behind (foreign f) e next = as_wording (f e)

  abbrev pub resolve_in :
      ℕ → Catalog → ValidationError → (Option ℕ → ValidationError → Wording) → Wording
  resolve_in left c e next = or_next (render left c e) (resolve_behind c.fallback e next)

  -- The first argument is what is left of the depth: maxFallbackDepth - depth.
  unfoldable pub resolve : ℕ → Option ℕ → ValidationError → Wording
  unfolding lookup_label render
  resolve zero c e = no_wording
  resolve (suc left) none e = no_wording
  resolve (suc left) (some id) e =
      resolve_in (suc left) (heap id) (relabel (lookup_label (heap id) e.path) e) (resolve left)

  -- (*Catalog).Localize; a panic is `none`
  unfoldable pub localize : Option ℕ → ValidationError → Option Text
  unfolding resolve
  localize c e = or_generic (resolve max_fallback_depth c e)

  -- A localizer on an error; the nil localizer stands for the catalog `en_us`.
  abbrev pub localize_by : ℕ → Localizer → ValidationError → Option Text
  localize_by en_us no_localizer e = localize (some en_us) e
  localize_by en_us (catalog c) e = localize c e
  localize_by en_us (foreign f) e = some (f e)

  abbrev localize_each : ℕ → Localizer → List ValidationError → Option (List Text)
  localize_each en_us l [] = some []
  localize_each en_us l (e ∷ es) = both_done (localize_by en_us l e) (localize_each en_us l es)

  -- The nil slice, which LocalizedMessagesWith returns without errors, is the empty list.
  unfoldable pub localized_messages_with : ℕ → Result → Localizer → Option (List Text)
  unfolding localize
  localized_messages_with en_us r l = localize_each en_us l r.errors

  -- LocalizedMessages, with the localizer of the validator that made the result; a result of no
  -- validator, like a validator without a localizer, has none.
  unfoldable pub localized_messages : ℕ → Localizer → Result → Option (List Text)
  unfolding localized_messages_with
  localized_messages en_us configured r = localized_messages_with en_us r configured

-- (*Validator).Localizer
unfoldable pub localizer_or : ℕ → Localizer → Localizer
localizer_or en_us no_localizer = catalog (some en_us)
localizer_or en_us (catalog c) = catalog c
localizer_or en_us (foreign f) = foreign f
