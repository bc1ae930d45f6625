-- ===== src/FailMode.antt =====
-- failmode.go: the three modes and their names.
use schemix.Prelude.{
  arith, ◌≡◌, refl, ap, ◌∙◌, ◌↔◌, text_eq_iff, Text, text, text_eq, Option, none, some, Bool, true,
  false, if◌then◌else◌,
}

pub data FailMode : Type 0 where
  fail_all fail_fast fail_priority : FailMode

abbrev pub mode_all : Text
mode_all = text "all"

abbrev pub mode_fast : Text
mode_fast = text "fast"

abbrev pub mode_priority : Text
mode_priority = text "priority"

-- an error is `none`
unfoldable pub parse_fail_mode : Text → Option FailMode
parse_fail_mode mode =
    if text_eq mode mode_all
    then some fail_all
    else if text_eq mode mode_fast
    then some fail_fast
    else if text_eq mode mode_priority
    then some fail_priority
    else none

unfoldable pub fail_mode_string : FailMode → Text
fail_mode_string fail_all = mode_all
fail_mode_string fail_fast = mode_fast
fail_mode_string fail_priority = mode_priority

abbrev pub is_fail_fast : FailMode → Bool
is_fail_fast fail_fast = true
is_fail_fast _ = false

abbrev pub is_fail_priority : FailMode → Bool
is_fail_priority fail_priority = true
is_fail_priority _ = false

names-apart : (s : Text) (m : FailMode) → parse_fail_mode s ≡ some m → s ≡ fail_mode_string m
unfolding parse_fail_mode fail_mode_string
names-apart s fail_all h =
    ground (arith, text_eq_iff s mode_all, text_eq_iff s mode_fast, text_eq_iff s mode_priority)
names-apart s fail_fast h =
    ground (arith, text_eq_iff s mode_all, text_eq_iff s mode_fast, text_eq_iff s mode_priority)
names-apart s fail_priority h =
    ground (arith, text_eq_iff s mode_all, text_eq_iff s mode_fast, text_eq_iff s mode_priority)

parse-name : (m : FailMode) → parse_fail_mode (fail_mode_string m) ≡ some m
unfolding parse_fail_mode fail_mode_string text_eq
parse-name fail_all = refl
parse-name fail_fast = refl
parse-name fail_priority = refl

-- A text parses to a mode exactly when it is the mode's name.
pub parse_fail_mode-string :
    (s : Text) (m : FailMode) → (parse_fail_mode s ≡ some m) ↔ (s ≡ fail_mode_string m)
parse_fail_mode-string s m = (names-apart s m, λ e. ap parse_fail_mode e ∙ parse-name m)
