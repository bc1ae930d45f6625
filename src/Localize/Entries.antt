-- ===== src/Localize/Entries.antt =====
-- The tables of the built-in catalogs of localize.go: each entry renders, and no label is empty.
use schemix.Prelude.{
  ℕ, Text, text, text_eq, ◌≡◌, refl, false, Option, none, some, List, [], ◌∷◌, All, if-case,
  if◌then◌else◌,
}
use schemix.GoLib.{GoLib}
use schemix.Errors.{ErrorCode, ValidationError, type_mismatch, enum_invalid, range_violation}
use schemix.Localize.Templates.{is_empty_text, expand, expand_from, placeholder_value}
use schemix.Localize.Spans.{next_span, cut_at}
use schemix.Localize.Indices.{normalize_path}
use schemix.Localize.Catalogs.{first_text, Message, Catalog, message_or, at_key, lookup_label}
use schemix.Localize.Tables.{utf8, en_us, zh_cn}

abbrev pub message_of : Catalog → ErrorCode → Message
message_of c code = message_or c (at_key code c.messages)

abbrev pub body_of : GoLib → Message → ValidationError → Text
body_of go m e = first_text (expand go m.template e) (expand go m.fallback e)

-- The message renders for every error that has a path.
abbrev pub Renders : GoLib → Message → Type 0
Renders go m =
    (e : ValidationError) (c : ℕ) (p : Text)
    → is_empty_text (body_of go m (record e { path = c ∷ p })) ≡ false

first_text-right : (s t : Text) → is_empty_text t ≡ false → is_empty_text (first_text s t) ≡ false
first_text-right [] t h = h
first_text-right (c ∷ s) t h = refl

-- What holds of every entry and of the default holds of the message of any code.
message_or-All :
    (P : Message → Type 0) (c : Catalog) (code : ErrorCode) (ms : List (Text × Message))
    → All (λ m. P m.1) ms
    → P c.default
    → P (message_or c (at_key code ms))
unfolding at_key
message_or-All P c code [] h d = d
message_or-All P c code ((k, m) ∷ ms) (h, hs) d =
    if-case (λ o. P (message_or c o)) (text_eq k code) (some m) (at_key code ms) (λ _. h)
      (λ _. message_or-All P c code ms hs d)

abbrev pub relabelled : Option Text → Text → Text
relabelled none path = path
relabelled (some label) path = label

-- A path that is not empty stays, or gets the only label.
one_label :
    (label normalized : Text) (c : ℕ) (p : Text)
    → is_empty_text label ≡ false
    → is_empty_text (
        relabelled
          (if text_eq normalized (c ∷ p)
            then none
            else if text_eq [] normalized
            then some label
            else none)
          (c ∷ p))
      ≡ false
one_label label normalized c p h =
    let Kept = λ (o : Option Text). is_empty_text (relabelled o (c ∷ p)) ≡ false in
    if-case Kept (text_eq normalized (c ∷ p)) none
      (if text_eq [] normalized then some label else none) (λ _. refl)
      λ _. if-case Kept (text_eq [] normalized) (some label) none (λ _. h) (λ _. refl)

pub en_us-labelled :
    (path : Text) → is_empty_text (relabelled (lookup_label en_us path) path) ≡ false
unfolding lookup_label at_key text_eq
en_us-labelled [] = refl
en_us-labelled (c ∷ p) = one_label (text "value") (normalize_path (c ∷ p)) c p refl

pub zh_cn-labelled :
    (path : Text) → is_empty_text (relabelled (lookup_label zh_cn path) path) ≡ false
unfolding lookup_label at_key text_eq
zh_cn-labelled [] = refl
zh_cn-labelled (c ∷ p) = one_label (utf8 "该值") (normalize_path (c ∷ p)) c p refl

-- The proofs for the entries of a table, one behind the other.
infixr 2 ◌also◌
abbrev ◌also◌ : {A B : Type 0} → A → B → A × B
a also b = (a, b)

module _ (go : GoLib) where
  by_fallback :
      (m : Message) (e : ValidationError) (c : ℕ) (p : Text)
      → is_empty_text (expand go m.fallback (record e { path = c ∷ p })) ≡ false
      → is_empty_text (body_of go m (record e { path = c ∷ p })) ≡ false
  by_fallback m e c p h =
      first_text-right (expand go m.template (record e { path = c ∷ p }))
        (expand go m.fallback (record e { path = c ∷ p })) h

  pub en_us-Renders : (code : ErrorCode) → Renders go (message_of en_us code)
  unfolding expand expand_from placeholder_value next_span cut_at text_eq at_key
  en_us-Renders code =
      message_or-All (Renders go) en_us code en_us.messages
        ((λ e c p. refl)
          also (λ e c p. refl)
          also (λ e c p. by_fallback (message_of en_us type_mismatch) e c p refl)
          also (λ e c p. by_fallback (message_of en_us enum_invalid) e c p refl)
          also (λ e c p. by_fallback (message_of en_us range_violation) e c p refl)
          also (λ e c p. refl)
          also (λ e c p. refl)
          also (λ e c p. refl)
          also (λ e c p. refl)
          also (λ e c p. refl)
          also (λ e c p. refl)
          also (λ e c p. refl)
          also (λ e c p. refl)
          also tt)
        (λ e c p. refl)

  pub zh_cn-Renders : (code : ErrorCode) → Renders go (message_of zh_cn code)
  unfolding expand expand_from placeholder_value next_span cut_at text_eq at_key
  zh_cn-Renders code =
      message_or-All (Renders go) zh_cn code zh_cn.messages
        ((λ e c p. refl)
          also (λ e c p. refl)
          also (λ e c p. by_fallback (message_of zh_cn type_mismatch) e c p refl)
          also (λ e c p. by_fallback (message_of zh_cn enum_invalid) e c p refl)
          also (λ e c p. by_fallback (message_of zh_cn range_violation) e c p refl)
          also (λ e c p. refl)
          also (λ e c p. refl)
          also (λ e c p. refl)
          also (λ e c p. refl)
          also (λ e c p. refl)
          also (λ e c p. refl)
          also (λ e c p. refl)
          also (λ e c p. refl)
          also tt)
        (λ e c p. refl)
