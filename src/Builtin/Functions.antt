-- ===== src/Builtin/Functions.antt =====
-- builtin_funcs.go: the functions. The clock and the parser of package time are parameters, a time
-- is of a type T.
use schemix.Prelude.{
  Text, text, text_eq, Bool, true, false, ◌&&◌, Option, none, some, List, [], ◌∷◌, eqb_ℤ,
}
use schemix.Value.{
  Value, null, bool, str, number, float64, float32, bytes, list, object, nil_map, other, IntKind,
  int, int8, int16, int32, int64, Items, nil, cons,
}
use schemix.Value.Float.{float_eq}

abbrev same_bool : Bool → Bool → Bool
same_bool true b = b
same_bool false true = false
same_bool false false = true

abbrev same_kind : IntKind → IntKind → Bool
same_kind int int = true
same_kind int8 int8 = true
same_kind int16 int16 = true
same_kind int32 int32 = true
same_kind int64 int64 = true
same_kind _ _ = false

-- `a == b` on interfaces: false on different types; a panic, `none`, on two slices or two maps. A
-- value of a type that is not told apart has the answer of `others`.
module _ (others : Text → Text → Option Bool) where
  unfoldable pub interface_eq : Value → Value → Option Bool
  unfolding float_eq
  interface_eq null null = some true
  interface_eq (bool a) (bool b) = some (same_bool a b)
  interface_eq (str s) (str t) = some (text_eq s t)
  interface_eq (number k a) (number l b) = some (same_kind k l && eqb_ℤ a b)
  interface_eq (float64 a) (float64 b) = some (float_eq a b)
  interface_eq (float32 a) (float32 b) = some (float_eq a b)
  interface_eq (bytes s) (bytes t) = none
  interface_eq (list a) (list b) = none
  interface_eq (object a) (object b) = none
  interface_eq (object a) nil_map = none
  interface_eq nil_map (object b) = none
  interface_eq nil_map nil_map = none
  interface_eq (other s) (other t) = others s t
  interface_eq _ _ = some false

  abbrev or_found : Option Bool → Option Bool → Option Bool
  or_found none rest = none
  or_found (some true) rest = some true
  or_found (some false) rest = rest

  unfoldable pub found_in : Value → Items → Option Bool
  unfolding interface_eq
  found_in raw nil = some false
  found_in raw (cons item items) = or_found (interface_eq raw item) (found_in raw items)

  -- A panic is `none`.
  unfoldable pub in_list : Value → Value → Option Bool
  unfolding found_in interface_eq
  in_list raw (list candidates) = found_in raw candidates
  in_list raw candidates = interface_eq raw candidates

-- time.Parse by layout, and Before
module _ {T : Type 0} (parse : Text → Text → Option T) where
  abbrev or_else : Option T → Option T → Option T
  or_else none rest = rest
  or_else (some t) rest = some t

  abbrev parse_by : List Text → Text → Option T
  parse_by [] s = none
  parse_by (f ∷ formats) s = or_else (parse f s) (parse_by formats s)

  unfoldable pub parse_date : Text → Option T
  parse_date s =
      parse_by
        (text "2006-01-02T15:04:05Z07:00"
          ∷ text "2006-01-02"
          ∷ text "2006-01-02 15:04:05"
          ∷ text "2006/01/02"
          ∷ text "02-01-2006"
          ∷ text "01/02/2006"
          ∷ [])
        s

  abbrev holds_of : (T → Bool) → Option T → Bool
  holds_of test none = false
  holds_of test (some t) = test t

  unfoldable pub is_past_date : (T → T → Bool) → T → Text → Bool
  unfolding parse_date
  is_past_date before now s = holds_of (λ t. before t now) (parse_date s)

  unfoldable pub is_future_date : (T → T → Bool) → T → Text → Bool
  unfolding parse_date
  is_future_date before now s = holds_of (λ t. before now t) (parse_date s)

  unfoldable pub is_valid_date : Text → Bool
  unfolding parse_date
  is_valid_date s = holds_of (λ t. true) (parse_date s)
