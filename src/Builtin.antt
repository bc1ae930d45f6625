-- ===== src/Builtin.antt =====
-- builtin_methods.go, builtin_funcs.go: the methods and functions that every environment of
-- Bloblang has.
pub mod Patterns
pub mod Strings
pub mod Luhn
pub mod Lengths
pub mod Functions
pub mod Base
use schemix.Prelude.{Text, text, Bool, List, [], ◌∷◌, ◌++◌, map}
use schemix.GoLib.{GoLib}
use schemix.Value.{Value}
use schemix.Builtin.Strings.{
  BuiltinLib, method_is_email, method_is_url, method_is_full_url, method_is_uuid, method_is_uuid3,
  method_is_uuid4, method_is_uuid5, method_is_ip, method_is_ipv4, method_is_ipv6, method_is_cidr,
  method_is_mac, method_is_json, method_is_base64, method_is_ascii, method_is_printable_ascii,
  method_is_multibyte, method_is_alpha, method_is_alphanumeric, method_is_alpha_dash,
  method_is_numeric, method_is_number, method_is_hex, method_is_hex_color, method_is_rgb_color,
  method_is_dns_name, method_is_data_uri, method_is_latitude, method_is_longitude, method_is_isbn10,
  method_is_isbn13, method_not_blank, method_has_whitespace, method_is_cn_mobile,
}
use schemix.Builtin.Luhn.{method_luhn_valid}

-- The methods without parameters, by their names.
abbrev pub plain_methods : BuiltinLib → GoLib → List (Text × (Value → Bool))
plain_methods lib go =
    (text "is_email", method_is_email lib go)
    ∷ (text "is_url", method_is_url lib go)
    ∷ (text "is_full_url", method_is_full_url lib go)
    ∷ (text "is_uuid", method_is_uuid lib go)
    ∷ (text "is_uuid3", method_is_uuid3 lib go)
    ∷ (text "is_uuid4", method_is_uuid4 lib go)
    ∷ (text "is_uuid5", method_is_uuid5 lib go)
    ∷ (text "is_ip", method_is_ip lib go)
    ∷ (text "is_ipv4", method_is_ipv4 lib go)
    ∷ (text "is_ipv6", method_is_ipv6 lib go)
    ∷ (text "is_cidr", method_is_cidr lib go)
    ∷ (text "is_mac", method_is_mac lib go)
    ∷ (text "is_json", method_is_json lib go)
    ∷ (text "is_base64", method_is_base64 lib go)
    ∷ (text "is_ascii", method_is_ascii lib go)
    ∷ (text "is_printable_ascii", method_is_printable_ascii lib go)
    ∷ (text "is_multibyte", method_is_multibyte lib go)
    ∷ (text "is_alpha", method_is_alpha lib go)
    ∷ (text "is_alpha_num", method_is_alphanumeric lib go)
    ∷ (text "is_alpha_dash", method_is_alpha_dash lib go)
    ∷ (text "is_numeric", method_is_numeric lib go)
    ∷ (text "is_number", method_is_number lib go)
    ∷ (text "is_hex", method_is_hex lib go)
    ∷ (text "is_hex_color", method_is_hex_color lib go)
    ∷ (text "is_rgb_color", method_is_rgb_color lib go)
    ∷ (text "is_dns_name", method_is_dns_name lib go)
    ∷ (text "is_data_uri", method_is_data_uri lib go)
    ∷ (text "is_latitude", method_is_latitude lib go)
    ∷ (text "is_longitude", method_is_longitude lib go)
    ∷ (text "is_isbn10", method_is_isbn10 lib go)
    ∷ (text "is_isbn13", method_is_isbn13 lib go)
    ∷ (text "not_blank", method_not_blank lib go)
    ∷ (text "has_whitespace", method_has_whitespace lib go)
    ∷ (text "is_cn_mobile", method_is_cn_mobile lib go)
    ∷ (text "luhn_valid", method_luhn_valid)
    ∷ []

abbrev pub plain_method_names : List Text
plain_method_names =
    text "is_email"
    ∷ text "is_url"
    ∷ text "is_full_url"
    ∷ text "is_uuid"
    ∷ text "is_uuid3"
    ∷ text "is_uuid4"
    ∷ text "is_uuid5"
    ∷ text "is_ip"
    ∷ text "is_ipv4"
    ∷ text "is_ipv6"
    ∷ text "is_cidr"
    ∷ text "is_mac"
    ∷ text "is_json"
    ∷ text "is_base64"
    ∷ text "is_ascii"
    ∷ text "is_printable_ascii"
    ∷ text "is_multibyte"
    ∷ text "is_alpha"
    ∷ text "is_alpha_num"
    ∷ text "is_alpha_dash"
    ∷ text "is_numeric"
    ∷ text "is_number"
    ∷ text "is_hex"
    ∷ text "is_hex_color"
    ∷ text "is_rgb_color"
    ∷ text "is_dns_name"
    ∷ text "is_data_uri"
    ∷ text "is_latitude"
    ∷ text "is_longitude"
    ∷ text "is_isbn10"
    ∷ text "is_isbn13"
    ∷ text "not_blank"
    ∷ text "has_whitespace"
    ∷ text "is_cn_mobile"
    ∷ text "luhn_valid"
    ∷ []

abbrev pub builtin_method_names : List Text
builtin_method_names =
    plain_method_names
    ++ (text "between" ∷ text "len_between" ∷ text "min_len" ∷ text "max_len" ∷ text "str_len" ∷ [])

abbrev pub builtin_func_names : List Text
builtin_func_names =
    text "in_list" ∷ text "is_past_date" ∷ text "is_future_date" ∷ text "is_valid_date" ∷ []
