-- ===== src/Builtin/Patterns.antt =====
-- The regular expressions of builtin_methods.go.
use schemix.Prelude.{Text, text}

abbrev pub re_email : Text
re_email = text "^[a-zA-Z0-9._%+\\-]+@[a-zA-Z0-9.\\-]+\\.[a-zA-Z]{2,}$"

abbrev pub re_uuid : Text
re_uuid = text "^[0-9a-fA-F]{8}-[0-9a-fA-F]{4}-[0-9a-fA-F]{4}-[0-9a-fA-F]{4}-[0-9a-fA-F]{12}$"

abbrev pub re_uuid3 : Text
re_uuid3 = text "^[0-9a-fA-F]{8}-[0-9a-fA-F]{4}-3[0-9a-fA-F]{3}-[0-9a-fA-F]{4}-[0-9a-fA-F]{12}$"

abbrev pub re_uuid4 : Text
re_uuid4 =
    text "^[0-9a-fA-F]{8}-[0-9a-fA-F]{4}-4[0-9a-fA-F]{3}-[89abAB][0-9a-fA-F]{3}-[0-9a-fA-F]{12}$"

abbrev pub re_uuid5 : Text
re_uuid5 =
    text "^[0-9a-fA-F]{8}-[0-9a-fA-F]{4}-5[0-9a-fA-F]{3}-[89abAB][0-9a-fA-F]{3}-[0-9a-fA-F]{12}$"

abbrev pub re_hex_color : Text
re_hex_color = text "^#([0-9a-fA-F]{3}|[0-9a-fA-F]{6})$"

abbrev pub re_rgb_color : Text
re_rgb_color = text "^rgb\\(\\s*(\\d{1,3})\\s*,\\s*(\\d{1,3})\\s*,\\s*(\\d{1,3})\\s*\\)$"

abbrev pub re_dns_name : Text
re_dns_name =
    text
      "^([a-zA-Z0-9_]{1}[a-zA-Z0-9_-]{0,62})(\\.[a-zA-Z0-9_]{1}[a-zA-Z0-9_-]{0,62})*?(\\.[a-zA-Z]{2,})$"

abbrev pub re_data_uri : Text
re_data_uri = text "^data:[a-z]+/[a-z0-9\\-+.]+;base64,"

abbrev pub re_latitude : Text
re_latitude = text "^[-+]?([1-8]?\\d(\\.\\d+)?|90(\\.0+)?)$"

abbrev pub re_longitude : Text
re_longitude = text "^[-+]?(180(\\.0+)?|((1[0-7]\\d)|([1-9]?\\d))(\\.\\d+)?)$"

abbrev pub re_isbn10 : Text
re_isbn10 = text "^(?:\\d[\\ -]?){9}[\\dxX]$"

abbrev pub re_isbn13 : Text
re_isbn13 = text "^(?:\\d[\\ -]?){13}$"

abbrev pub re_cn_mobile : Text
re_cn_mobile = text "^1[3-9]\\d{9}$"

abbrev pub re_number : Text
re_number = text "^[+-]?(\\d+\\.?\\d*|\\.\\d+)$"

abbrev pub re_hex : Text
re_hex = text "^[0-9a-fA-F]+$"

abbrev pub re_alpha_dash : Text
re_alpha_dash = text "^[a-zA-Z0-9_-]+$"
