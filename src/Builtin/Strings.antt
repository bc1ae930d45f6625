-- ===== src/Builtin/Strings.antt =====
-- builtin_methods.go: the validation methods on a string. The parsers of net, net/url,
-- encoding/json and encoding/base64 and the classes of runes are parameters; a method on a value
-- that is no string answers false.
use schemix.Prelude.{
  ℕ, Text, text, text_eq, Bool, true, false, ◌&&◌, ◌||◌, not, Option, none, some, [], ◌∷◌, any, all,
  length, ltb, leb, ◌==◌, if◌then◌else◌,
}
use schemix.GoLib.{GoLib}
use schemix.Value.{Value, str}
use schemix.Builtin.Patterns

-- `parse_url` gives the scheme and the host; `parse_ip` says whether To4 is not nil.
pub record BuiltinLib : Type 0 where
  pub parse_url : Text → Option (Text × Text)
  pub parse_ip : Text → Option Bool
  pub parse_cidr : Text → Bool
  pub parse_mac : Text → Bool
  pub json_valid : Text → Bool
  pub decode_base64 : Text → Bool
  pub is_letter : ℕ → Bool
  pub is_digit : ℕ → Bool
  pub is_space : ℕ → Bool
  pub trim_space : Text → Text

-- `s, ok := v.(string); if !ok { return false, nil }`
abbrev pub on_string : (Text → Bool) → Value → Bool
on_string test (str s) = test s
on_string test v = false

abbrev pub is_empty_string : Text → Bool
is_empty_string [] = true
is_empty_string (c ∷ s) = false

-- strings.ReplaceAll(s, " ", "")
abbrev pub without_spaces : Text → Text
without_spaces [] = []
without_spaces (c ∷ s) = let rest = without_spaces s in if c == 32 then rest else c ∷ rest

module _ (lib : BuiltinLib) (go : GoLib) where
  abbrev matching : Text → Value → Bool
  matching pattern v = on_string (go.match_string pattern) v

  -- as above, but false on the empty string
  abbrev matching_some : Text → Value → Bool
  matching_some pattern v = on_string (λ s. not (is_empty_string s) && go.match_string pattern s) v

  -- every rune passes, and there is one
  abbrev all_runes : (ℕ → Bool) → Value → Bool
  all_runes test v = on_string (λ s. not (is_empty_string s) && all test (go.runes s)) v

  abbrev has_scheme_and_host : Option (Text × Text) → Bool
  has_scheme_and_host none = false
  has_scheme_and_host (some (scheme, host)) =
      not (is_empty_string scheme) && not (is_empty_string host)

  abbrev is_web : Option (Text × Text) → Bool
  is_web none = false
  is_web (some (scheme, host)) =
      not (is_empty_string host) && (text_eq scheme (text "http") || text_eq scheme (text "https"))

  abbrev is_v4 : Option Bool → Bool
  is_v4 none = false
  is_v4 (some four) = four

  abbrev is_v6 : Option Bool → Bool
  is_v6 none = false
  is_v6 (some four) = not four

  abbrev is_address : Option Bool → Bool
  is_address none = false
  is_address (some four) = true

  unfoldable pub method_is_url : Value → Bool
  method_is_url v = on_string (λ s. has_scheme_and_host (lib.parse_url s)) v

  unfoldable pub method_is_full_url : Value → Bool
  method_is_full_url v = on_string (λ s. is_web (lib.parse_url s)) v

  unfoldable pub method_is_ip : Value → Bool
  method_is_ip v = on_string (λ s. is_address (lib.parse_ip s)) v

  unfoldable pub method_is_ipv4 : Value → Bool
  method_is_ipv4 v = on_string (λ s. is_v4 (lib.parse_ip s)) v

  unfoldable pub method_is_ipv6 : Value → Bool
  method_is_ipv6 v = on_string (λ s. is_v6 (lib.parse_ip s)) v

  unfoldable pub method_is_cidr : Value → Bool
  method_is_cidr v = on_string lib.parse_cidr v

  unfoldable pub method_is_mac : Value → Bool
  method_is_mac v = on_string lib.parse_mac v

  unfoldable pub method_is_json : Value → Bool
  method_is_json v = on_string lib.json_valid v

  unfoldable pub method_is_base64 : Value → Bool
  method_is_base64 v = on_string (λ s. not (is_empty_string s) && lib.decode_base64 s) v

  unfoldable pub method_is_ascii : Value → Bool
  method_is_ascii v = on_string (λ s. all (λ r. leb r 127) (go.runes s)) v

  unfoldable pub method_is_printable_ascii : Value → Bool
  method_is_printable_ascii v =
      on_string (λ s. all (λ r. not (ltb r 32 || ltb 126 r)) (go.runes s)) v

  unfoldable pub method_is_multibyte : Value → Bool
  method_is_multibyte v = on_string (λ s. any (λ r. ltb 127 r) (go.runes s)) v

  unfoldable pub method_is_alpha : Value → Bool
  method_is_alpha v = all_runes lib.is_letter v

  unfoldable pub method_is_alphanumeric : Value → Bool
  method_is_alphanumeric v = all_runes (λ r. lib.is_letter r || lib.is_digit r) v

  unfoldable pub method_is_numeric : Value → Bool
  method_is_numeric v = all_runes lib.is_digit v

  unfoldable pub method_is_dns_name : Value → Bool
  method_is_dns_name v =
      on_string
        (λ s.
          not (is_empty_string s)
          && not (ltb 253 (length s))
          && go.match_string Patterns.re_dns_name s)
        v

  unfoldable pub method_is_isbn10 : Value → Bool
  method_is_isbn10 v = on_string (λ s. go.match_string Patterns.re_isbn10 (without_spaces s)) v

  unfoldable pub method_is_isbn13 : Value → Bool
  method_is_isbn13 v = on_string (λ s. go.match_string Patterns.re_isbn13 (without_spaces s)) v

  unfoldable pub method_not_blank : Value → Bool
  method_not_blank v = on_string (λ s. not (is_empty_string (lib.trim_space s))) v

  unfoldable pub method_has_whitespace : Value → Bool
  method_has_whitespace v = on_string (λ s. any lib.is_space (go.runes s)) v

  unfoldable pub method_is_email : Value → Bool
  method_is_email v = matching Patterns.re_email v

  unfoldable pub method_is_uuid : Value → Bool
  method_is_uuid v = matching Patterns.re_uuid v

  unfoldable pub method_is_uuid3 : Value → Bool
  method_is_uuid3 v = matching Patterns.re_uuid3 v

  unfoldable pub method_is_uuid4 : Value → Bool
  method_is_uuid4 v = matching Patterns.re_uuid4 v

  unfoldable pub method_is_uuid5 : Value → Bool
  method_is_uuid5 v = matching Patterns.re_uuid5 v

  unfoldable pub method_is_hex_color : Value → Bool
  method_is_hex_color v = matching Patterns.re_hex_color v

  unfoldable pub method_is_rgb_color : Value → Bool
  method_is_rgb_color v = matching Patterns.re_rgb_color v

  unfoldable pub method_is_data_uri : Value → Bool
  method_is_data_uri v = matching Patterns.re_data_uri v

  unfoldable pub method_is_latitude : Value → Bool
  method_is_latitude v = matching Patterns.re_latitude v

  unfoldable pub method_is_longitude : Value → Bool
  method_is_longitude v = matching Patterns.re_longitude v

  unfoldable pub method_is_cn_mobile : Value → Bool
  method_is_cn_mobile v = matching Patterns.re_cn_mobile v

  unfoldable pub method_is_alpha_dash : Value → Bool
  method_is_alpha_dash v = matching_some Patterns.re_alpha_dash v

  unfoldable pub method_is_number : Value → Bool
  method_is_number v = matching_some Patterns.re_number v

  unfoldable pub method_is_hex : Value → Bool
  method_is_hex v = matching_some Patterns.re_hex v
