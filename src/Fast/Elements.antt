-- ===== src/Fast/Elements.antt =====
-- validateFastElements of fastpath.go, compared with the check of each element.
use schemix.Prelude.{
  ℕ, suc, ◌≡◌, ◌≢◌, ◌↔◌, refl, true, false, Option, none, some, List, [], ◌∷◌, arith,
}
use schemix.Value.{Value, Items, nil, cons, list}
use schemix.GoLib.{GoLib}
use schemix.Fast.{Descriptor, FastResult, ElemFailure}
use schemix.Fast.Check.{
  validate_fast, validate_elements_from, validate_fast_elements, add_element, failure_at,
}

abbrev pub AllItems : (Value → Type 0) → Items → Type 0
AllItems P nil = Unit
AllItems P (cons v items) = P v × AllItems P items

-- The items whose check rejects them, with their indices from `i` on, in the order of the list.
abbrev pub rejected_from : (Value → FastResult) → ℕ → Items → List ElemFailure
rejected_from check i nil = []
rejected_from check i (cons v items) =
    let rest = rejected_from check (suc i) items in
    elim (check v).valid [ true ↦ rest | false ↦ failure_at i (check v) ∷ rest ]

module _ (go : GoLib) (elem : Descriptor) where
  abbrev pub Decided : Value → Type 0
  Decided v = (validate_fast go elem v).handled ≡ true

  add_decided :
      (i : ℕ) (er : FastResult) (rest : Option (List ElemFailure)) (fs : List ElemFailure)
      → er.handled ≡ true
      → rest ≡ some fs
      → add_element i er rest ≡ some (elim er.valid [ true ↦ fs | false ↦ failure_at i er ∷ fs ])
  add_decided i er rest fs h e = ground arith

  add-ne-none :
      (i : ℕ) (er : FastResult) (rest : Option (List ElemFailure))
      → add_element i er rest ≢ none
      → (er.handled ≡ true) × (rest ≢ none)
  add-ne-none i er rest h = ground arith

  elements-Decided :
      (items : Items) (i : ℕ)
      → AllItems Decided items
      → validate_elements_from go i elem items
        ≡ some (rejected_from (validate_fast go elem) i items)
  unfolding validate_elements_from
  elements-Decided nil i h = refl
  elements-Decided (cons v items) i (p, h) =
      add_decided i (validate_fast go elem v) (validate_elements_from go (suc i) elem items)
        (rejected_from (validate_fast go elem) (suc i) items) p (elements-Decided items (suc i) h)

  elements-ne-none :
      (items : Items) (i : ℕ)
      → validate_elements_from go i elem items ≢ none
      → AllItems Decided items
  unfolding validate_elements_from
  elements-ne-none nil i h = tt
  elements-ne-none (cons v items) i h =
      let (p, rest) =
        add-ne-none i (validate_fast go elem v) (validate_elements_from go (suc i) elem items) h in
      (p, elements-ne-none items (suc i) rest)

  -- The check decides a list exactly when the descriptor decides each of its elements: where one
  -- element has to go to CUE, the whole list has.
  pub validate_fast_elements-Decided :
      (items : Items)
      → (validate_fast_elements go elem (list items) ≢ none) ↔ AllItems Decided items
  unfolding validate_fast_elements
  validate_fast_elements-Decided items =
      (elements-ne-none items 0, λ h e. cc (elements-Decided items 0 h))

  -- Of a list whose elements the descriptor decides, the check reports the rejected elements, each
  -- with its index and the failure that the check of the element alone has, in the order of the
  -- list, and no others.
  pub validate_fast_elements-rejected :
      (items : Items)
      → AllItems Decided items
      → validate_fast_elements go elem (list items)
        ≡ some (rejected_from (validate_fast go elem) 0 items)
  unfolding validate_fast_elements
  validate_fast_elements-rejected items h = elements-Decided items 0 h
