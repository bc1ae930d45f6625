-- ===== src/Builtin/Luhn.antt =====
-- methodLuhnValid of builtin_methods.go: the checksum of card numbers.
use schemix.Prelude.{
  ℕ, ◌+◌, ◌-◌, ◌*◌, ◌%◌, Text, ◌≡◌, ◌≢◌, Bool-cases, inl, inr, refl, sym, ap, ap₂, ◌∙◌, subst, Bool,
  true, false, ◌&&◌, not, Option, none, some, [], ◌∷◌, ◌++◌, reverse, reverse-cons, reverse-append,
  append_assoc, all, length, ltb, leb, ◌==◌, arith, if◌then◌else◌, if-case,
}
use schemix.Value.{Value}
use schemix.Builtin.Strings.{on_string}

abbrev pub is_decimal : ℕ → Bool
is_decimal c = leb b'0' c && leb c b'9'

-- What a digit adds to the sum; every second one from the end is doubled.
unfoldable pub weight : Bool → ℕ → ℕ
weight alt n = let m = n * 2 in if alt then (if ltb 9 m then m - 9 else m) else n

-- The loop, over the bytes from the last to the first; `none` is the return of false.
unfoldable pub luhn_sum : Text → Bool → ℕ → Option ℕ
unfolding weight
luhn_sum [] alt sum = some sum
luhn_sum (c ∷ s) alt sum =
    let rest = luhn_sum s (not alt) (sum + weight alt (c - b'0')) in
    if is_decimal c then rest else none

abbrev pub is_multiple_of_ten : Option ℕ → Bool
is_multiple_of_ten none = false
is_multiple_of_ten (some sum) = sum % 10 == 0

unfoldable pub luhn_valid : Text → Bool
unfolding luhn_sum
luhn_valid s =
    let checked = is_multiple_of_ten (luhn_sum (reverse s) false 0) in
    if ltb (length s) 2 then false else checked

unfoldable pub method_luhn_valid : Value → Bool
unfolding luhn_valid
method_luhn_valid v = on_string luhn_valid v

-- What the bytes add to the sum.
total : Text → Bool → ℕ
total [] alt = 0
total (c ∷ s) alt = weight alt (c - b'0') + total s (not alt)

zero_right : (n : ℕ) → n ≡ n + 0
zero_right n = omega arith

plus_assoc : (a b c : ℕ) → (a + b) + c ≡ a + (b + c)
plus_assoc a b c = omega arith

and_true : (a b : Bool) → a ≡ true → (a && b) ≡ b
and_true a b h = ground arith

luhn_sum-total :
    (s : Text) (alt : Bool) (sum : ℕ)
    → luhn_sum s alt sum ≡ (if all is_decimal s then some (sum + total s alt) else none)
unfolding luhn_sum total
luhn_sum-total [] alt sum = ap some (zero_right sum)
luhn_sum-total (c ∷ s) alt sum =
    if-case
      (λ o. o ≡ (if is_decimal c && all is_decimal s then some (sum + total (c ∷ s) alt) else none))
      (is_decimal c) _ none
      (λ e.
        luhn_sum-total s (not alt) (sum + weight alt (c - b'0'))
        ∙ ap₂ (λ b n. if b then some n else none) (sym (and_true (is_decimal c) _ e))
            (plus_assoc sum (weight alt (c - b'0')) (total s (not alt))))
      (λ e.
        ap (λ b. if b && all is_decimal s then some (sum + total (c ∷ s) alt) else none) (sym e))

-- Whether a digit is doubled behind these bytes.
alt_after : Text → Bool → Bool
alt_after [] alt = alt
alt_after (c ∷ s) alt = alt_after s (not alt)

total-append :
    (s t : Text) (alt : Bool) → total (s ++ t) alt ≡ total s alt + total t (alt_after s alt)
unfolding total alt_after
total-append [] t alt = omega arith
total-append (c ∷ s) t alt = omega (arith, total-append s t (not alt))

all-append : (s t : Text) → all is_decimal (s ++ t) ≡ (all is_decimal s && all is_decimal t)
all-append [] t = refl
all-append (c ∷ s) t = ground (arith, all-append s t)

weight-apart :
    (alt : Bool) (c d x y : ℕ)
    → is_decimal c ≡ true
    → is_decimal d ≡ true
    → (x + (weight alt (c - b'0') + y)) % 10 ≡ 0
    → (x + (weight alt (d - b'0') + y)) % 10 ≡ 0
    → c ≡ d
unfolding weight
weight-apart true c d x y hc hd h k = ground arith
weight-apart false c d x y hc hd h k = ground arith

long_enough : (b x : Bool) → (if b then false else x) ≡ true → x ≡ true
long_enough true x h = absurd (cc)
long_enough false x h = h

plus_zero : (n : ℕ) → n ≡ 0 + n
plus_zero n = omega arith

middle : (a b c : Bool) → (a && (b && c)) ≡ true → b ≡ true
middle a b c h = ground arith

reversed : (a b : Text) (c : ℕ) → reverse (a ++ c ∷ b) ≡ reverse b ++ c ∷ reverse a
reversed a b c =
    reverse-append a (c ∷ b)
    ∙ ap (λ s. s ++ reverse a) (reverse-cons c b)
    ∙ append_assoc (reverse b) (c ∷ []) (reverse a)

-- The digits and the sum of a text that passes.
Checked : Text → Type 0
Checked s = (all is_decimal s ≡ true) × (total s false % 10 ≡ 0)

checked_if :
    (b : Bool) (n : ℕ)
    → is_multiple_of_ten (if b then some n else none) ≡ true
    → (b ≡ true) × (n % 10 ≡ 0)
checked_if true n h = (refl, ground arith)
checked_if false n h = absurd (cc)

luhn_valid-Checked : (s : Text) → luhn_valid s ≡ true → Checked (reverse s)
unfolding luhn_valid Checked
luhn_valid-Checked s h =
    let r = reverse s in
    let (digits, multiple) = checked_if (all is_decimal r) (0 + total r false) (
      ap is_multiple_of_ten (sym (luhn_sum-total r false 0))
      ∙ long_enough (ltb (length s) 2) _ h) in
    (digits, ap (λ n. n % 10) (plus_zero (total r false)) ∙ multiple)

Checked-middle :
    (a b : Text) (c : ℕ)
    → Checked (reverse (a ++ c ∷ b))
    → let x = reverse b in
      let alt = alt_after x false in
      (is_decimal c ≡ true)
      × ((total x false + (weight alt (c - b'0') + total (reverse a) (not alt))) % 10 ≡ 0)
unfolding Checked total
Checked-middle a b c h =
    let turned : reverse (a ++ c ∷ b) ≡ reverse b ++ c ∷ reverse a = reversed a b c in
    let (digits, multiple) = subst Checked turned h in
    (
      middle (all is_decimal (reverse b)) (is_decimal c) (all is_decimal (reverse a))
          (sym (all-append (reverse b) (c ∷ reverse a)) ∙ digits),
      ap (λ n. n % 10) (sym (total-append (reverse b) (c ∷ reverse a) false)) ∙ multiple,
    )

same_digit :
    (before behind : Text) (c d : ℕ)
    → luhn_valid (before ++ c ∷ behind) ≡ true
    → luhn_valid (before ++ d ∷ behind) ≡ true
    → c ≡ d
same_digit before behind c d h k =
    let (hc, hn) = Checked-middle before behind c (luhn_valid-Checked (before ++ c ∷ behind) h) in
    let (hd, kn) = Checked-middle before behind d (luhn_valid-Checked (before ++ d ∷ behind) k) in
    let x = reverse behind in
    let alt = alt_after x false in
    weight-apart alt c d (total x false) (total (reverse before) (not alt)) hc hd hn kn

-- A single wrong digit is always found: if a text passes, then every text that differs from it in
-- exactly one byte does not.
pub luhn_valid-single :
    (before behind : Text) (c d : ℕ)
    → luhn_valid (before ++ c ∷ behind) ≡ true
    → c ≢ d
    → luhn_valid (before ++ d ∷ behind) ≡ false
luhn_valid-single before behind c d h apart =
    elim (Bool-cases (luhn_valid (before ++ d ∷ behind))) [
      | inl k ↦ absurd (apart (same_digit before behind c d h k))
      | inr k ↦ k
    ]
