-- ===== src/Compile/Controls.antt =====
-- parsefieldMeta of compile.go: what holds of the controls that it accepts.
use schemix.Prelude.{
  ℕ, ℤ, Text, text, text_eq, has_prefix, ◌≡◌, refl, sym, Bool, true, false, ◌&&◌, not, Option, none,
  some, List, [], ◌∷◌, all, inl, inr, ◌⊎◌, if-case, if◌then◌else◌, Bool-cases, subst,
}
use schemix.GoLib.{GoLib, trim_space, drop_prefix}
use schemix.Fallible.{Fallible, ok, fail}
use schemix.Schema.{Executor, FieldMeta}
use schemix.Compile.Meta.{
  no_meta, is_known, is_empty_value, mapping_of, with_priority, with_required_if, with_skip_if,
  set_required_if, set_skip_if, set_by, set_arg, and_then, unknown_param, parse_args,
  parse_field_meta,
}

abbrev pub is_present : Option Executor → Bool
is_present none = false
is_present (some exec) = true

-- Conditional fields are optional, and a compiled condition stands with its text.
abbrev pub Coherent : FieldMeta → Type 0
Coherent m =
    ((m.conditional ≡ false) ⊎ (m.optional ≡ true))
    × (is_present m.skip_if ≡ not (is_empty_value m.skip_if_expr))
    × (is_present m.required_if ≡ not (is_empty_value m.required_if_expr))

abbrev Kept : Fallible FieldMeta → Type 0
Kept (fail e) = Unit
Kept (ok m) = Coherent m

module _ (go : GoLib) (atoi : Text → Fallible ℤ) (parse : Text → Fallible Executor) where
  with_priority-Kept :
      (v : Text) (n : Fallible ℤ) (m : FieldMeta)
      → Coherent m
      → Kept (with_priority go atoi parse v n m)
  with_priority-Kept v (fail e) m h = tt
  with_priority-Kept v (ok n) m h = h

  with_required_if-Kept :
      (c : ℕ) (s : Text) (x : Fallible Executor) (m : FieldMeta)
      → Coherent m
      → Kept (with_required_if go atoi parse (c ∷ s) x m)
  with_required_if-Kept c s (fail e) m h = tt
  with_required_if-Kept c s (ok exec) m (h, k, l) = (h, k, refl)

  with_skip_if-Kept :
      (c : ℕ) (s : Text) (x : Fallible Executor) (m : FieldMeta)
      → Coherent m
      → Kept (with_skip_if go atoi parse (c ∷ s) x m)
  with_skip_if-Kept c s (fail e) m h = tt
  with_skip_if-Kept c s (ok exec) m (h, k, l) = (h, refl, l)

  set_required_if-Kept :
      (s : Text) (m : FieldMeta) → Coherent m → Kept (set_required_if go atoi parse s m)
  set_required_if-Kept [] m h = tt
  set_required_if-Kept (c ∷ s) m h = with_required_if-Kept c s (parse (mapping_of (c ∷ s))) m h

  set_skip_if-Kept : (s : Text) (m : FieldMeta) → Coherent m → Kept (set_skip_if go atoi parse s m)
  set_skip_if-Kept [] m h = tt
  set_skip_if-Kept (c ∷ s) m h = with_skip_if-Kept c s (parse (mapping_of (c ∷ s))) m h

  set_by-Kept : (key v : Text) (m : FieldMeta) → Coherent m → Kept (set_by go atoi parse key v m)
  set_by-Kept key v m h =
      if-case Kept (text_eq key (text "priority") && not (is_empty_value v)) _ _
        (λ _. with_priority-Kept v (atoi v) m h)
        λ _.
          if-case Kept (text_eq key (text "optional")) _ _ (λ _. (inr refl, h.1, h.2))
            λ _.
              if-case Kept (text_eq key (text "conditional")) _ _ (λ _. (inr refl, h.1, h.2))
                λ _.
                  if-case Kept (text_eq key (text "skip_empty")) _ _ (λ _. h)
                    λ _.
                      if-case Kept (text_eq key (text "fail_fast")) _ _ (λ _. h)
                        λ _.
                          if-case Kept (text_eq key (text "omit_if_skip")) _ _ (λ _. h)
                            λ _.
                              if-case Kept (text_eq key (text "omit_empty")) _ _ (λ _. h)
                                λ _.
                                  if-case Kept (text_eq key (text "required_if")) _ _
                                    (λ _. set_required_if-Kept v m h)
                                    λ _.
                                      if-case Kept (has_prefix key (text "required_if=")) _ _
                                        (λ _.
                                          set_required_if-Kept
                                            (drop_prefix key (text "required_if=")) m h)
                                        λ _.
                                          if-case Kept (text_eq key (text "skip_if")) _ _
                                            (λ _. set_skip_if-Kept v m h)
                                            λ _.
                                              if-case Kept (has_prefix key (text "skip_if=")) _
                                                (ok m)
                                                (λ _.
                                                  set_skip_if-Kept
                                                    (drop_prefix key (text "skip_if=")) m h)
                                                (λ _. h)

  -- The arguments that are read are known, and the result is coherent.
  abbrev Accepted : Bool → Fallible FieldMeta → Type 0
  Accepted known (fail e) = Unit
  Accepted known (ok m) = (known ≡ true) × Coherent m

  known-Accepted : (o : Fallible FieldMeta) → Kept o → Accepted true o
  known-Accepted (fail e) h = tt
  known-Accepted (ok m) h = (refl, h)

  and_then-Accepted :
      (first : Fallible FieldMeta) (next : FieldMeta → Fallible FieldMeta) (known rest : Bool)
      → Accepted known first
      → ((m : FieldMeta) → Coherent m → Accepted rest (next m))
      → Accepted (known && rest) (and_then go atoi parse first next)
  and_then-Accepted (fail e) next known rest h k = tt
  and_then-Accepted (ok m) next known rest (p, h) k =
      subst (λ b. Accepted (b && rest) (next m)) (sym p) (k m h)

  set_arg-Accepted :
      (key v : Text) (m : FieldMeta)
      → Coherent m
      → Accepted (is_known key) (set_arg go atoi parse key v m)
  set_arg-Accepted key v m h = elim (Bool-cases (is_known key)) [
    | inl p ↦
        subst
          (λ b. Accepted b (
            if not b then fail (unknown_param go atoi parse key) else set_by go atoi parse key v m))
          (sym p) (known-Accepted (set_by go atoi parse key v m) (set_by-Kept key v m h))
    | inr p ↦
        subst
          (λ b. Accepted b (
            if not b then fail (unknown_param go atoi parse key) else set_by go atoi parse key v m))
          (sym p) tt
  ]

  parse_args-Accepted :
      (args : List (Text × Text)) (m : FieldMeta)
      → Coherent m
      → Accepted (all (λ a. is_known (trim_space a.0)) args) (parse_args go atoi parse args m)
  unfolding parse_args
  parse_args-Accepted [] m h = (refl, h)
  parse_args-Accepted ((key, v) ∷ args) m h =
      and_then-Accepted (set_arg go atoi parse (trim_space key) (trim_space v) m)
        (parse_args go atoi parse args) (is_known (trim_space key))
        (all (λ a. is_known (trim_space a.0)) args)
        (set_arg-Accepted (trim_space key) (trim_space v) m h)
        (λ m' h'. parse_args-Accepted args m' h')

  of_ok :
      (b : Bool) (o : Fallible FieldMeta) (m : FieldMeta)
      → Accepted b o
      → o ≡ ok m
      → (b ≡ true) × Coherent m
  of_ok b (fail e) m h k = absurd (cc)
  of_ok b (ok n) m h k = subst (λ o. Accepted b o) k h

  -- If the arguments of @meta are accepted, then every key, up to an equals sign, is a known one,
  -- and in the controls that result a conditional field is optional, and a condition to skip or to
  -- require is compiled exactly when its text is recorded.
  pub parse_field_meta-Coherent :
      (args : List (Text × Text)) (m : FieldMeta)
      → parse_field_meta go atoi parse (some args) ≡ ok m
      → (all (λ a. is_known (trim_space a.0)) args ≡ true) × Coherent m
  unfolding parse_field_meta
  parse_field_meta-Coherent args m h =
      of_ok (all (λ a. is_known (trim_space a.0)) args) (parse_args go atoi parse args no_meta) m
        (parse_args-Accepted args no_meta (inl refl, refl, refl)) h
