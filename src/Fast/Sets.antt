-- ===== src/Fast/Sets.antt =====
-- The membership sets of fastpath.go, compared with a scan of the candidates.
use schemix.Prelude.{
  ℤ, Text, text_eq, text_eq_iff, eqb_ℤ, eqb_ℤ→eq, ◌≡◌, refl, sym, subst, ap, ◌∙◌, Bool, true, ◌||◌,
  List, [], ◌∷◌, any, arith, Bool-cases, inl, inr,
}
use schemix.Fast.Enum.{add_key, key_set, member, new_string_enum_set, new_int_enum_set}

module _ {ℓ} {A : Type ℓ} (eq : A → A → Bool) (eq-sound : (a b : A) → eq a b ≡ true → a ≡ b) where
  listed : (v e : A) (set : List A) → eq v e ≡ true → any (eq e) set ≡ true → any (eq v) set ≡ true
  listed v e set same h = subst (λ x. any (eq x) set ≡ true) (sym (eq-sound v e same)) h

  any_of_add_key :
      (v e : A) (set : List A) → any (eq v) (add_key eq e set) ≡ (eq v e || any (eq v) set)
  any_of_add_key v e set = elim (Bool-cases (eq v e)) [
    | inl same ↦ ground (arith, listed v e set same)
    | inr other ↦ ground arith
  ]

  any-key_set : (v : A) (enums : List A) → any (eq v) (key_set eq enums) ≡ any (eq v) enums
  any-key_set v [] = refl
  any-key_set v (e ∷ enums) =
      any_of_add_key v e (key_set eq enums) ∙ ap (λ b. eq v e || b) (any-key_set v enums)

text_eq_sound : (s t : Text) → text_eq s t ≡ true → s ≡ t
text_eq_sound s t = (text_eq_iff s t).0

-- Whatever the number of candidates, so on either side of the threshold, the verdict on a value
-- is that of a scan of the candidates, for strings and for integers.
pub member-new_set :
    (strings : List Text) (s : Text) (ints : List ℤ) (n : ℤ)
    → (member text_eq (new_string_enum_set strings) strings s ≡ any (text_eq s) strings)
      × (member eqb_ℤ (new_int_enum_set ints) ints n ≡ any (eqb_ℤ n) ints)
unfolding new_string_enum_set new_int_enum_set
member-new_set strings s ints n = (
  ground (arith, any-key_set text_eq text_eq_sound s strings),
  ground (arith, any-key_set eqb_ℤ eqb_ℤ→eq n ints),
)
