-- ===== src/Process/Lowest.antt =====
-- keepLowestFailedPriority of process.go: which errors of the CUE layer are kept.
use schemix.Prelude.{
  ℤ, ◌≤ℤ◌, Text, ◌≡◌, ◌≢◌, refl, sym, ap, subst, ◌∙◌, Bool, true, false, ◌||◌, Option, none, some,
  List, [], ◌∷◌, any, All, All-map, keep_if-any, ltb_ℤ, leb_ℤ, eqb_ℤ, leb_ℤ-trans, eqb_ℤ→eq, arith,
  inl, inr, ◌⊎◌, if◌then◌else◌, text_eq,
}
use schemix.Errors.{ValidationError, Result}
use schemix.Nested.Segments.{segments}
use schemix.Schema.{FieldDescr, CueFields, no_fields, field}
use schemix.Process.Picked.{Picked, keep_if-Picked}
use schemix.Process.Priority.{
  max_int, find_name, find_at, find_cue_field, field_priority_by_path, lowest_priority,
  keep_lowest_failed_priority, ends, descend, priority_or_zero,
}

-- Every priority of the tree is an int of Go.
abbrev pub PrioritiesFit : {S : Type 0} → CueFields S → Type 0
PrioritiesFit no_fields = Unit
PrioritiesFit (field f children rest) =
    (leb_ℤ f.priority max_int ≡ true) × PrioritiesFit children × PrioritiesFit rest

if-leb : (p l : ℤ) → leb_ℤ (if ltb_ℤ p l then p else l) l ≡ true
if-leb p l = ground arith

if-leb_other : (p l : ℤ) → leb_ℤ (if ltb_ℤ p l then p else l) p ≡ true
if-leb_other p l = ground arith

if-either : (p l : ℤ) → ((if ltb_ℤ p l then p else l) ≡ l) ⊎ ((if ltb_ℤ p l then p else l) ≡ p)
if-either p l = ground arith

eqb_ℤ-refl : (a : ℤ) → eqb_ℤ a a ≡ true
eqb_ℤ-refl a = ground arith

eqb_ℤ-of_eq : (a b : ℤ) → a ≡ b → eqb_ℤ a b ≡ true
eqb_ℤ-of_eq a b h = rw h (eqb_ℤ-refl b)

leb_ℤ-antisym : (a b : ℤ) → leb_ℤ a b ≡ true → leb_ℤ b a ≡ true → eqb_ℤ a b ≡ true
leb_ℤ-antisym a b h k = ground arith

leb_ℤ→≤ℤ : (a b : ℤ) → leb_ℤ a b ≡ true → a ≤ℤ b
leb_ℤ→≤ℤ a b h = ground arith

module _ {S : Type 0} where
  abbrev Found : Option (FieldDescr S × CueFields S) → Type 0
  Found none = Unit
  Found (some (f, children)) = (leb_ℤ f.priority max_int ≡ true) × PrioritiesFit children

  abbrev FoundField : Option (FieldDescr S) → Type 0
  FoundField none = Unit
  FoundField (some f) = leb_ℤ f.priority max_int ≡ true

  Found-if :
      (b : Bool) (x y : Option (FieldDescr S × CueFields S))
      → Found x
      → Found y
      → Found (if b then x else y)
  Found-if true x y h k = h
  Found-if false x y h k = k

  find_name-Found :
      (part : Text) (tree : CueFields S) → PrioritiesFit tree → Found (find_name part tree)
  unfolding find_name
  find_name-Found part no_fields h = tt
  find_name-Found part (field f children rest) (p, c, r) =
      Found-if (text_eq f.name part) (some (f, children)) (find_name part rest) (p, c)
        (find_name-Found part rest r)

  descend-FoundField :
      (last : Bool) (next : CueFields S → Option (FieldDescr S))
      (o : Option (FieldDescr S × CueFields S))
      → ((children : CueFields S) → PrioritiesFit children → FoundField (next children))
      → Found o
      → FoundField (descend last next o)
  descend-FoundField last next none k h = tt
  descend-FoundField true next (some (f, children)) k (p, c) = p
  descend-FoundField false next (some (f, children)) k (p, c) = k children c

  find_at-FoundField :
      (path : List Text) (tree : CueFields S) → PrioritiesFit tree → FoundField (find_at tree path)
  unfolding find_at
  find_at-FoundField [] tree h = tt
  find_at-FoundField (part ∷ path) tree h =
      descend-FoundField (ends path) (λ children. find_at children path) (find_name part tree)
        (find_at-FoundField path) (find_name-Found part tree h)

  or_zero-fits :
      (o : Option (FieldDescr S)) → FoundField o → leb_ℤ (priority_or_zero o) max_int ≡ true
  or_zero-fits none h = ground arith
  or_zero-fits (some f) h = h

  module _ (tree : CueFields S) where
    abbrev pub priority_of : ValidationError → ℤ
    priority_of e = field_priority_by_path tree e.path

    priority-fits :
        (path : Text) → PrioritiesFit tree → leb_ℤ (field_priority_by_path tree path) max_int ≡ true
    unfolding field_priority_by_path find_cue_field
    priority-fits path h =
        or_zero-fits (find_cue_field tree path) (find_at-FoundField (segments path) tree h)

    lowest-leb :
        (l : ℤ) (errors : List ValidationError) → leb_ℤ (lowest_priority tree l errors) l ≡ true
    unfolding lowest_priority
    lowest-leb l [] = ground arith
    lowest-leb l (e ∷ errors) =
        let p = priority_of e in
        let l' = if ltb_ℤ p l then p else l in
        leb_ℤ-trans (lowest_priority tree l' errors) l' l (lowest-leb l' errors) (if-leb p l)

    lowest-below :
        (l : ℤ) (errors : List ValidationError)
        → All (λ e. leb_ℤ (lowest_priority tree l errors) (priority_of e) ≡ true) errors
    unfolding lowest_priority
    lowest-below l [] = tt
    lowest-below l (e ∷ errors) =
        let p = priority_of e in
        let l' = if ltb_ℤ p l then p else l in
        (
          leb_ℤ-trans (lowest_priority tree l' errors) l' p (lowest-leb l' errors)
              (if-leb_other p l),
          lowest-below l' errors,
        )

    -- The lowest priority is that of an error, or the one that the search began with.
    lowest-attained :
        (l : ℤ) (errors : List ValidationError)
        → (lowest_priority tree l errors ≡ l)
          ⊎ (any (λ e. eqb_ℤ (priority_of e) (lowest_priority tree l errors)) errors ≡ true)
    unfolding lowest_priority
    lowest-attained l [] = inl refl
    lowest-attained l (e ∷ errors) =
        let p = priority_of e in
        let l' = if ltb_ℤ p l then p else l in
        let m = lowest_priority tree l' errors in
        elim (lowest-attained l' errors) [
          | inr later ↦ inr (ground arith)
          | inl same ↦ elim (if-either p l) [
            | inl kept ↦ inl (same ∙ kept)
            | inr taken ↦ inr (
                ap (λ b. b || any (λ d. eqb_ℤ (priority_of d) m) errors)
                  (ap (λ n. eqb_ℤ p n) (same ∙ taken) ∙ eqb_ℤ-refl p))
          ]
        ]

    lowest-kept :
        (errors : List ValidationError)
        → PrioritiesFit tree
        → errors ≢ []
        → any (λ e. eqb_ℤ (priority_of e) (lowest_priority tree max_int errors)) errors ≡ true
    lowest-kept [] fit h = absurd (h refl)
    lowest-kept (e ∷ errors) fit h =
        let l = lowest_priority tree max_int (e ∷ errors) in
        elim (lowest-attained max_int (e ∷ errors)) [
          | inr found ↦ found
          | inl same ↦
              (let below : leb_ℤ (priority_of e) l ≡ true =
                  subst (λ n. leb_ℤ (priority_of e) n ≡ true) (sym same)
                    (priority-fits e.path fit) in
                ap (λ b. b || any (λ d. eqb_ℤ (priority_of d) l) errors)
                  (leb_ℤ-antisym (priority_of e) l below (lowest-below max_int (e ∷ errors)).0))
        ]

    -- Of errors at places whose priorities are ints, exactly those of the lowest priority stay, in
    -- their order: the errors of the priority that is returned are kept and the others dropped, no
    -- error had a lower one, at least one stays, and the validity and the output are as they were.
    pub keep_lowest-minimum :
        (r : Result)
        → PrioritiesFit tree
        → r.errors ≢ []
        → let (remaining, lowest) = keep_lowest_failed_priority tree r in
          (remaining.errors ≢ [])
          × Picked (λ e. priority_of e ≡ lowest) r.errors remaining.errors
          × All (λ e. lowest ≤ℤ priority_of e) r.errors
          × (remaining.valid ≡ r.valid)
          × (remaining.output ≡ r.output)
    unfolding keep_lowest_failed_priority
    keep_lowest-minimum r fit some_error =
        let l = lowest_priority tree max_int r.errors in
        let same : ValidationError → Bool = λ e. eqb_ℤ (priority_of e) l in
        (
          keep_if-any same r.errors (lowest-kept r.errors fit some_error),
          keep_if-Picked same (λ e. priority_of e ≡ l) r.errors
              (λ e h. eqb_ℤ→eq (priority_of e) l h) (λ e h. eqb_ℤ-of_eq (priority_of e) l h),
          All-map (λ e. leb_ℤ l (priority_of e) ≡ true) (λ e. l ≤ℤ priority_of e) r.errors
              (λ e h. leb_ℤ→≤ℤ l (priority_of e) h) (lowest-below max_int r.errors),
          refl,
          refl,
        )
