-- ===== src/Localize/Tables.antt =====
-- The built-in catalogs of localize.go. A text that is not ASCII is written in UTF-8.
use Prim.Native.Char.{code}
use Prim.Native.String.{String}
use schemix.Prelude.{ℕ, ◌+◌, ◌/◌, ◌%◌, Text, text, ltb, [], ◌∷◌, if◌then◌else◌}
use schemix.Errors.{
  ErrorCode, format_mismatch, type_mismatch, enum_invalid, range_violation, required_missing,
  array_element, cue_other, biz_rule_failed, expr_exec_error, blob_type_mismatch, cond_required,
  meta_runtime_error, config_error,
}
use schemix.Localize.Catalogs.{Message, Catalog, no_localizer}

-- A rune below 2^16 in UTF-8, in front of `rest`.
abbrev pub rune_bytes : ℕ → Text → Text
rune_bytes n rest =
    if ltb n 128
    then n ∷ rest
    else if ltb n 2048
    then (192 + n / 64) ∷ (128 + n % 64) ∷ rest
    else (224 + n / 4096) ∷ (128 + n / 64 % 64) ∷ (128 + n % 64) ∷ rest

-- The bytes of a literal.
abbrev pub utf8 : String → Text
utf8 String.[] = []
utf8 (String.◌∷◌ c s) = rune_bytes (code c) (utf8 s)

abbrev pub plain : String → Message
plain t = record { template = utf8 t; fallback = [] }

abbrev pub with_fallback : String → String → Message
with_fallback t f = record { template = utf8 t; fallback = utf8 f }

-- The entry of a code.
abbrev pub on_code : ErrorCode → Message → Text × Message
on_code c m = (c, m)

abbrev pub en_us : Catalog
en_us = record {
  messages =
      on_code required_missing (plain "{field} is required")
      ∷ on_code cond_required (plain "{field} is required for this request")
      ∷ on_code type_mismatch
          (with_fallback "{field} must be of type {type}" "{field} has the wrong type")
      ∷ on_code enum_invalid (
          with_fallback "{field} must be one of {options}"
            "{field} is not one of the allowed values")
      ∷ on_code range_violation
          (with_fallback "{field} must be {bound}" "{field} is out of the allowed range")
      ∷ on_code format_mismatch (plain "{field} has an invalid format")
      ∷ on_code array_element (plain "{field} contains an invalid item")
      ∷ on_code biz_rule_failed (plain "{field} does not satisfy a validation rule")
      ∷ on_code blob_type_mismatch (plain "{field} produced a value of the wrong type")
      ∷ on_code expr_exec_error (plain "{field} could not be evaluated")
      ∷ on_code meta_runtime_error (plain "{field} could not be evaluated")
      ∷ on_code cue_other (plain "{field} is invalid")
      ∷ on_code config_error (plain "the validation configuration is invalid")
      ∷ [];
  default = plain "{field} is invalid";
  labels = ([], text "value") ∷ [];
  suggestion_suffix = utf8 " — did you mean {suggestion}?";
  fallback = no_localizer;
}

abbrev pub zh_cn : Catalog
zh_cn = record {
  messages =
      on_code required_missing (plain "{field}为必填项")
      ∷ on_code cond_required (plain "当前请求必须提供{field}")
      ∷ on_code type_mismatch (with_fallback "{field}的类型必须是 {type}" "{field}的类型不正确")
      ∷ on_code enum_invalid (with_fallback "{field}必须是 {options} 中的一个" "{field}不在允许的取值范围内")
      ∷ on_code range_violation (with_fallback "{field}必须满足 {bound}" "{field}超出允许的范围")
      ∷ on_code format_mismatch (plain "{field}的格式不正确")
      ∷ on_code array_element (plain "{field}中包含无效的元素")
      ∷ on_code biz_rule_failed (plain "{field}未通过校验规则")
      ∷ on_code blob_type_mismatch (plain "{field}计算出的值类型不正确")
      ∷ on_code expr_exec_error (plain "{field}无法完成计算")
      ∷ on_code meta_runtime_error (plain "{field}无法完成计算")
      ∷ on_code cue_other (plain "{field}无效")
      ∷ on_code config_error (plain "校验配置无效")
      ∷ [];
  default = plain "{field}无效";
  labels = ([], utf8 "该值") ∷ [];
  suggestion_suffix = utf8 "，您是否想输入 {suggestion}？";
  fallback = no_localizer;
}
