-- ===== src/Compile/Fields.antt =====
-- Fields of compile.go: the description of a schema's fields for a reader.
use schemix.Prelude.{
  ℤ, pos, Text, text_eq, Bool, false, Option, none, some, List, [], ◌∷◌, if◌then◌else◌,
}
use schemix.Schema.{FieldMeta, BlobRule, FieldDescr, CueFields, no_fields, field, Validator}

-- FieldInfo but for its children
pub record FieldInfo : Type 0 where
  pub name : Text
  pub path : Text
  pub field_type : Text
  pub optional : Bool
  pub has_blob : Bool
  pub priority : ℤ
  pub required_if : Text
  pub skip_if : Text
  pub conditional : Bool
  pub omit_empty : Bool

-- `[]FieldInfo`: a field, its children, and the fields behind it
pub data FieldInfos : Type 0 where
  no_infos : FieldInfos
  info : FieldInfo → FieldInfos → FieldInfos → FieldInfos

-- The controls that a path is looked up with: those of its first rule.
unfoldable pub meta_by_path : List BlobRule → Text → Option FieldMeta
meta_by_path [] path = none
meta_by_path (rule ∷ rules) path =
    let rest = meta_by_path rules path in if text_eq rule.path path then some rule.meta else rest

abbrev shape_of : {S : Type 0} → FieldDescr S → FieldInfo
shape_of f = record {
  name = f.name;
  path = f.path;
  field_type = f.field_type;
  optional = f.optional;
  has_blob = f.has_blob;
  priority = pos 0;
  required_if = [];
  skip_if = [];
  conditional = false;
  omit_empty = false;
}

abbrev with_controls : Option FieldMeta → FieldInfo → FieldInfo
with_controls none i = i
with_controls (some m) i = record i {
  priority = m.priority;
  required_if = m.required_if_expr;
  skip_if = m.skip_if_expr;
  conditional = m.conditional;
  omit_empty = m.omit_empty;
}

module _ {S : Type 0} where
  unfoldable pub convert_cue_fields : CueFields S → (Text → Option FieldMeta) → FieldInfos
  convert_cue_fields no_fields meta = no_infos
  convert_cue_fields (field f children rest) meta =
      info (with_controls (meta f.path) (shape_of f)) (convert_cue_fields children meta)
        (convert_cue_fields rest meta)

  unfoldable pub fields : Validator S → FieldInfos
  unfolding convert_cue_fields meta_by_path
  fields v = convert_cue_fields v.cue_fields (meta_by_path v.blob_rules)
