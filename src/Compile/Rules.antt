-- ===== src/Compile/Rules.antt =====
-- compile.go: the walks over a schema of CUE that extract the rules and reject misplaced
-- attributes. What CUE says of a schema is the record SchemaApi; the parsers are parameters. The
-- first argument of a walk is what is left of the depth: one more than the limit at the root.
use schemix.Prelude.{
  ℕ, zero, suc, Text, text, text_eq, Bool, true, false, ◌&&◌, ◌||◌, not, Option, none, some, List,
  [], ◌∷◌, ◌++◌, if◌then◌else◌,
}
use schemix.GoLib.{GoLib, decimal}
use schemix.Fallible.{Fallible, ok, fail}
use schemix.Schema.{CueKind, is_struct_kind, is_list_kind}

pub record SchemaField (S : Type 0) : Type 0 where
  pub selector : Text
  pub is_optional : Bool
  pub is_definition : Bool
  pub schema : S

-- An attribute that is missing, a walk that CUE refuses, an element that does not exist are `none`.
pub record SchemaApi (S : Type 0) : Type 0 where
  pub kind : S → CueKind
  pub kind_sans_null : S → CueKind
  pub schema_fields : S → Option (List (SchemaField S))
  pub fields_with_definitions : S → Option (List (SchemaField S))
  pub blob_args : S → Option (List Text)
  pub meta_args : S → Option (List (Text × Text))
  pub any_element : S → Option S
  pub list_items : S → Option (List S)

-- strings.TrimSuffix(s, "?")
abbrev pub trim_optional : Text → Text
trim_optional [] = []
trim_optional (c ∷ []) = if text_eq (c ∷ []) (text "?") then [] else c ∷ []
trim_optional (c ∷ d ∷ s) = c ∷ trim_optional (d ∷ s)

abbrev pub below : Text → Text → Text
below [] name = name
below (c ∷ prefix) name = (c ∷ prefix) ++ text "." ++ name

abbrev pub attr_given {ℓ} : {A : Type ℓ} → Option A → Bool
attr_given none = false
attr_given (some args) = true

abbrev pub or_empty_list {ℓ} : {A : Type ℓ} → Option (List A) → List A
or_empty_list none = []
or_empty_list (some xs) = xs

abbrev pub schema_too_deep : GoLib → ℕ → Text → Text
schema_too_deep go limit path =
    text "schema nesting at "
    ++ go.quote path
    ++ text " exceeds the maximum depth of "
    ++ decimal limit
    ++ text "; raise it with WithMaxSchemaDepth if the schema is legitimately this deep, "
    ++ text "or check for mutually recursive definitions such as "
    ++ text "#A: {bs: [...#B]} with #B: {as: [...#A]}"

-- The first text that is not empty, or the first error.
abbrev pub or_search : Fallible Text → Fallible Text → Fallible Text
or_search (fail e) rest = fail e
or_search (ok []) rest = rest
or_search (ok (c ∷ s)) rest = ok (c ∷ s)

module _ {S : Type 0} (go : GoLib) (api : SchemaApi S) (limit : ℕ) where
  unfoldable pub has_schemix_attr : S → Bool
  has_schemix_attr s = attr_given (api.blob_args s) || attr_given (api.meta_args s)

  abbrev pub search_each : (ℕ → S → Fallible Text) → ℕ → List S → Fallible Text
  search_each search i [] = ok []
  search_each search i (s ∷ items) = or_search (search i s) (search_each search (suc i) items)

  abbrev pub search_fields : (SchemaField S → Fallible Text) → List (SchemaField S) → Fallible Text
  search_fields search [] = ok []
  search_fields search (f ∷ fields) = or_search (search f) (search_fields search fields)

  -- The elements of a list, by the walk of one element.
  abbrev pub search_list : (Text → S → Fallible Text) → Text → S → Option S → Fallible Text
  search_list element path l (some elem) = element (path ++ text "[]") elem
  search_list element path l none =
      search_each (λ i s. element (path ++ text "[" ++ decimal i ++ text "]") s) 0
        (or_empty_list (api.list_items l))

  -- A field of an element, by the walks of an element and of a list.
  abbrev pub search_field :
      (Text → S → Fallible Text) → (Text → S → Fallible Text) → Text → SchemaField S → Fallible Text
  search_field element in_list path f =
      let field_path = path ++ text "." ++ trim_optional f.selector in
      if has_schemix_attr f.schema
      then ok field_path
      else if is_struct_kind (api.kind f.schema)
      then element field_path f.schema
      else if is_list_kind (api.kind f.schema)
      then in_list field_path f.schema
      else ok []

  abbrev pub search_element :
      (Text → S → Fallible Text) → (Text → S → Fallible Text) → Text → S → Fallible Text
  search_element element in_list path elem =
      if has_schemix_attr elem
      then ok path
      else if not (is_struct_kind (api.kind elem))
      then ok []
      else search_fields (search_field element in_list path)
          (or_empty_list (api.schema_fields elem))

  unfoldable mutual
    unfolding has_schemix_attr

    pub find_attr_in_list_elements : ℕ → Text → S → Fallible Text
    find_attr_in_list_elements zero path l = fail (schema_too_deep go limit path)
    find_attr_in_list_elements (suc left) path l =
        search_list (find_attr_in_element_schema left) path l (api.any_element l)

    pub find_attr_in_element_schema : ℕ → Text → S → Fallible Text
    find_attr_in_element_schema zero path elem = fail (schema_too_deep go limit path)
    find_attr_in_element_schema (suc left) path elem =
        search_element (find_attr_in_element_schema left) (find_attr_in_list_elements left) path
          elem

  abbrev definition_error : Text → Text → Text
  definition_error path name =
      text "definition "
      ++ go.quote path
      ++ text ": @blob/@meta is not supported on a "
      ++ text "definition and would be silently ignored, because a definition is a "
      ++ text "reusable template while the expression binds to an absolute path; "
      ++ text "put the attribute on the field that references it, e.g. field: "
      ++ name
      ++ text " @blob(this.field...)"

  -- An error, if there is one.
  abbrev or_error : Option Text → Option Text → Option Text
  or_error none rest = rest
  or_error (some e) rest = some e

  abbrev check_each : (SchemaField S → Option Text) → List (SchemaField S) → Option Text
  check_each check [] = none
  check_each check (f ∷ fields) = or_error (check f) (check_each check fields)

  abbrev check_definition : (Text → S → Option Text) → Text → SchemaField S → Option Text
  check_definition descend prefix f =
      let path = below prefix f.selector in
      let deeper = descend path f.schema in
      if f.is_definition && has_schemix_attr f.schema
      then some (definition_error path f.selector)
      else if is_struct_kind (api.kind f.schema)
      then deeper
      else none

  unfoldable pub check_definition_attrs : ℕ → Text → S → Option Text
  unfolding has_schemix_attr
  check_definition_attrs zero prefix s = some (schema_too_deep go limit prefix)
  check_definition_attrs (suc left) prefix s =
      let found =
        check_each (check_definition (check_definition_attrs left) prefix)
          (or_empty_list (api.fields_with_definitions s)) in
      if is_struct_kind (api.kind s) then found else none
