-- ===== src/Compile/Depth.antt =====
-- The limit on the depth of a schema, of compile.go: what a higher limit changes.
use schemix.Prelude.{
  ℕ, zero, suc, ◌≤◌, ℤ, Text, text, ◌≡◌, refl, sym, ap, ◌∙◌, subst, Bool, true, false, not, Option,
  none, some, List, [], ◌∷◌, ◌++◌, arith, if◌then◌else◌,
}
use schemix.GoLib.{GoLib, decimal}
use schemix.Fallible.{Fallible, ok, fail}
use schemix.Schema.{Executor, FieldMeta, BlobRule, is_struct_kind, is_list_kind}
use schemix.Compile.Meta.{parse_field_meta}
use schemix.Compile.Rules.{
  SchemaField, SchemaApi, below, trim_optional, or_empty_list, or_search, has_schemix_attr,
  search_each, search_fields, search_list, search_field, search_element, find_attr_in_list_elements,
  find_attr_in_element_schema,
}
use schemix.Compile.Extract.{
  Extracted, and_rules, unless_found, with_meta, extract_fields, add_field_rules, optional_too,
  extract_rules,
}

-- What succeeds stays.
abbrev Stays {ℓ} : {A : Type ℓ} → Fallible A → Fallible A → Type ℓ
Stays (fail e) y = Unit
Stays (ok a) y = y ≡ ok a

Stays-refl {ℓ} : {A : Type ℓ} (x : Fallible A) → Stays x x
Stays-refl (fail e) = tt
Stays-refl (ok a) = refl

if-Stays {ℓ} :
    {A : Type ℓ} (b : Bool) (x y x' y' : Fallible A)
    → Stays x x'
    → Stays y y'
    → Stays (if b then x else y) (if b then x' else y')
if-Stays true x y x' y' h k = h
if-Stays false x y x' y' h k = k

or_search-Stays :
    (a b a' b' : Fallible Text) → Stays a a' → Stays b b' → Stays (or_search a b) (or_search a' b')
or_search-Stays (fail e) b a' b' h k = tt
or_search-Stays (ok []) b a' b' h k = subst (λ a. Stays b (or_search a b')) (sym h) k
or_search-Stays (ok (c ∷ s)) b a' b' h k = ap (λ a. or_search a b') h

and_rules-Stays :
    (a a' : Extracted) (next next' : List BlobRule → Extracted)
    → Stays a a'
    → ((rules : List BlobRule) → Stays (next rules) (next' rules))
    → Stays (and_rules a next) (and_rules a' next')
and_rules-Stays (fail e) a' next next' h k = tt
and_rules-Stays (ok rules) a' next next' h k =
    subst (λ a. Stays (next rules) (and_rules a next')) (sym h) (k rules)

module _ {S : Type 0} (go : GoLib) (api : SchemaApi S) (limit limit' : ℕ) where
  search_each-Stays :
      (f f' : ℕ → S → Fallible Text) (i : ℕ) (items : List S)
      → ((j : ℕ) (s : S) → Stays (f j s) (f' j s))
      → Stays (search_each go api limit f i items) (search_each go api limit' f' i items)
  search_each-Stays f f' i [] h = refl
  search_each-Stays f f' i (s ∷ items) h =
      or_search-Stays (f i s) _ (f' i s) _ (h i s) (search_each-Stays f f' (suc i) items h)

  search_fields-Stays :
      (f f' : SchemaField S → Fallible Text) (fields : List (SchemaField S))
      → ((x : SchemaField S) → Stays (f x) (f' x))
      → Stays (search_fields go api limit f fields) (search_fields go api limit' f' fields)
  search_fields-Stays f f' [] h = refl
  search_fields-Stays f f' (x ∷ fields) h =
      or_search-Stays (f x) _ (f' x) _ (h x) (search_fields-Stays f f' fields h)

  search_list-Stays :
      (f f' : Text → S → Fallible Text) (path : Text) (l : S) (o : Option S)
      → ((p : Text) (s : S) → Stays (f p s) (f' p s))
      → Stays (search_list go api limit f path l o) (search_list go api limit' f' path l o)
  search_list-Stays f f' path l (some elem) h = h (path ++ text "[]") elem
  search_list-Stays f f' path l none h =
      search_each-Stays (λ i s. f (path ++ text "[" ++ decimal i ++ text "]") s)
        (λ i s. f' (path ++ text "[" ++ decimal i ++ text "]") s) 0
        (or_empty_list (api.list_items l)) (λ i s. h (path ++ text "[" ++ decimal i ++ text "]") s)

  search_element-Stays :
      (f g f' g' : Text → S → Fallible Text) (path : Text) (s : S)
      → ((p : Text) (t : S) → Stays (f p t) (f' p t))
      → ((p : Text) (t : S) → Stays (g p t) (g' p t))
      → Stays (search_element go api limit f g path s) (search_element go api limit' f' g' path s)
  unfolding has_schemix_attr
  search_element-Stays f g f' g' path s h k =
      if-Stays (has_schemix_attr go api limit s) _ _ _ _ refl (
        if-Stays (not (is_struct_kind (api.kind s))) _ _ _ _ refl (
          search_fields-Stays (search_field go api limit f g path)
            (search_field go api limit' f' g' path) (or_empty_list (api.schema_fields s))
            λ x. if-Stays (has_schemix_attr go api limit x.schema) _ _ _ _ refl (
              if-Stays (is_struct_kind (api.kind x.schema)) _ _ _ _ (h _ x.schema)
                (if-Stays (is_list_kind (api.kind x.schema)) _ _ _ _ (k _ x.schema) refl))))

  mutual
    unfolding find_attr_in_list_elements find_attr_in_element_schema

    list_elements-Stays :
        (left left' : ℕ) (path : Text) (l : S)
        → left ≤ left'
        → Stays
            (find_attr_in_list_elements go api limit left path l)
            (find_attr_in_list_elements go api limit' left' path l)
    list_elements-Stays zero left' path l h = tt
    list_elements-Stays (suc left) zero path l h = absurd (omega arith)
    list_elements-Stays (suc left) (suc left') path l h =
        search_list-Stays (find_attr_in_element_schema go api limit left)
          (find_attr_in_element_schema go api limit' left') path l (api.any_element l)
          λ p s. element_schema-Stays left left' p s (omega arith)

    element_schema-Stays :
        (left left' : ℕ) (path : Text) (s : S)
        → left ≤ left'
        → Stays
            (find_attr_in_element_schema go api limit left path s)
            (find_attr_in_element_schema go api limit' left' path s)
    element_schema-Stays zero left' path s h = tt
    element_schema-Stays (suc left) zero path s h = absurd (omega arith)
    element_schema-Stays (suc left) (suc left') path s h =
        search_element-Stays (find_attr_in_element_schema go api limit left)
          (find_attr_in_list_elements go api limit left)
          (find_attr_in_element_schema go api limit' left')
          (find_attr_in_list_elements go api limit' left') path s
          (λ p t. element_schema-Stays left left' p t (omega arith))
          (λ p t. list_elements-Stays left left' p t (omega arith))

  module _ (atoi : Text → Fallible ℤ) (parse_blob : Text → Fallible Executor) where
    unless_found-Stays :
        (path name : Text) (x x' : Fallible Text) (rules : List BlobRule)
        → Stays x x'
        → Stays
            (unless_found go api limit atoi parse_blob path name x rules)
            (unless_found go api limit' atoi parse_blob path name x' rules)
    unless_found-Stays path name (fail e) x' rules h = tt
    unless_found-Stays path name (ok []) x' rules h =
        ap (λ x. unless_found go api limit' atoi parse_blob path name x rules) h
    unless_found-Stays path name (ok (c ∷ bad)) x' rules h = tt

    with_meta-Stays :
        (path : Text) (m : Fallible FieldMeta) (next next' : FieldMeta → Extracted)
        → ((meta : FieldMeta) → Stays (next meta) (next' meta))
        → Stays
            (with_meta go api limit atoi parse_blob path m next)
            (with_meta go api limit' atoi parse_blob path m next')
    with_meta-Stays path (fail e) next next' h = tt
    with_meta-Stays path (ok meta) next next' h = h meta

    extract_fields-Stays :
        (f f' : SchemaField S → List BlobRule → Extracted) (fields : List (SchemaField S))
        (rules : List BlobRule)
        → ((x : SchemaField S) (rs : List BlobRule) → Stays (f x rs) (f' x rs))
        → Stays
            (extract_fields go api limit atoi parse_blob f fields rules)
            (extract_fields go api limit' atoi parse_blob f' fields rules)
    extract_fields-Stays f f' [] rules h = refl
    extract_fields-Stays f f' (x ∷ fields) rules h =
        and_rules-Stays (f x rules) (f' x rules) _ _ (h x rules)
          λ rs. extract_fields-Stays f f' fields rs h

    extract_rules-Stays :
        (left left' : ℕ) (prefix : Text) (s : S) (rules : List BlobRule)
        → left ≤ left'
        → Stays
            (extract_rules go api limit atoi parse_blob left prefix s rules)
            (extract_rules go api limit' atoi parse_blob left' prefix s rules)
    unfolding extract_rules
    extract_rules-Stays zero left' prefix s rules h = tt
    extract_rules-Stays (suc left) zero prefix s rules h = absurd (omega arith)
    extract_rules-Stays (suc left) (suc left') prefix s rules h =
        if-Stays (is_struct_kind (api.kind s)) _ _ _ _
          (extract_fields-Stays _ _ (or_empty_list (api.schema_fields s)) rules λ x rs.
            let name = trim_optional x.selector in
            let path = below prefix name in
            with_meta-Stays path (parse_field_meta go atoi parse_blob (api.meta_args x.schema)) _ _
              λ meta.
                and_rules-Stays
                  (add_field_rules go api limit atoi parse_blob path
                    (optional_too go api limit atoi parse_blob x.is_optional meta)
                    (api.kind_sans_null x.schema) (api.blob_args x.schema) rs)
                  _ _ _ (Stays-refl _)
                  λ rs'.
                    if-Stays (is_struct_kind (api.kind x.schema)) _ _ _ _
                      (extract_rules-Stays left left' path x.schema rs' (omega arith))
                      (if-Stays (is_list_kind (api.kind x.schema)) _ _ _ _
                        (unless_found-Stays path name _ _ rs'
                          (list_elements-Stays left left' path x.schema (omega arith)))
                        refl))
          refl

    Stays-ok :
        (x x' : Extracted) (rules : List BlobRule) → Stays x x' → x ≡ ok rules → x' ≡ ok rules
    Stays-ok (fail e) x' rules h k = absurd (cc)
    Stays-ok (ok rs) x' rules h k = h ∙ k

    -- If the rules of a schema are extracted under a limit on the depth, then a higher limit gives
    -- the same rules.
    pub extract_rules_raised :
        limit ≤ limit'
        → (s : S) (rules : List BlobRule)
        → extract_rules go api limit atoi parse_blob (suc limit) [] s [] ≡ ok rules
        → extract_rules go api limit' atoi parse_blob (suc limit') [] s [] ≡ ok rules
    extract_rules_raised h s rules k =
        Stays-ok _ (extract_rules go api limit' atoi parse_blob (suc limit') [] s []) rules
          (extract_rules-Stays (suc limit) (suc limit') [] s [] (omega arith)) k
