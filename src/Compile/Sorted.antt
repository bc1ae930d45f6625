-- ===== src/Compile/Sorted.antt =====
-- sortBlobRules of compile.go: the order of the sorted rules.
use schemix.Prelude.{
  ℤ, ◌≡◌, refl, ap, ◌∙◌, Bool, true, false, List, [], ◌∷◌, All, keep_if, leb_ℤ, eqb_ℤ, arith,
  if-case, if◌then◌else◌,
}
use schemix.Schema.{BlobRule}
use schemix.Process.Groups.{SortedFrom}
use schemix.Compile.{insert_rule, sort_blob_rules}

leb_ℤ-other : (a b : ℤ) → leb_ℤ a b ≡ false → leb_ℤ b a ≡ true
leb_ℤ-other a b h = ground arith

eqb_ℤ-apart : (a b p : ℤ) → leb_ℤ a b ≡ false → eqb_ℤ b p ≡ true → eqb_ℤ a p ≡ false
eqb_ℤ-apart a b p h k = ground arith

insert_rule-SortedFrom :
    (low : ℤ) (rule : BlobRule) (rules : List BlobRule)
    → leb_ℤ low rule.meta.priority ≡ true
    → SortedFrom low rules
    → SortedFrom low (insert_rule rule rules)
unfolding insert_rule
insert_rule-SortedFrom low rule [] h s = (h, tt)
insert_rule-SortedFrom low rule (r ∷ rules) h (k, s) =
    let p = rule.meta.priority in
    let q = r.meta.priority in
    if-case (SortedFrom low) (leb_ℤ p q) (rule ∷ r ∷ rules) (r ∷ insert_rule rule rules)
      (λ below. (h, (below, s)))
      λ above. (k, insert_rule-SortedFrom q rule rules (leb_ℤ-other p q above) s)

abbrev pub of_priority : ℤ → BlobRule → Bool
of_priority p rule = eqb_ℤ rule.meta.priority p

-- Of two rules at most one is kept, so their order is all the same.
later_kept :
    (a b : Bool) (x y : BlobRule) (rest inserted : List BlobRule)
    → (b ≡ true → a ≡ false)
    → inserted ≡ (if a then x ∷ rest else rest)
    → (if b then y ∷ inserted else inserted)
      ≡ (if a then x ∷ (if b then y ∷ rest else rest) else if b then y ∷ rest else rest)
later_kept true true x y rest inserted h e = absurd (cc (h refl))
later_kept true false x y rest inserted h e = e
later_kept false true x y rest inserted h e = ap (λ out. y ∷ out) e
later_kept false false x y rest inserted h e = e

keep_if-insert_rule :
    (p : ℤ) (rule : BlobRule) (rules : List BlobRule)
    → keep_if (of_priority p) (insert_rule rule rules) ≡ keep_if (of_priority p) (rule ∷ rules)
unfolding insert_rule
keep_if-insert_rule p rule [] = refl
keep_if-insert_rule p rule (r ∷ rules) =
    if-case
      (λ (out : List BlobRule).
        keep_if (of_priority p) out ≡ keep_if (of_priority p) (rule ∷ r ∷ rules))
      (leb_ℤ rule.meta.priority r.meta.priority) (rule ∷ r ∷ rules) (r ∷ insert_rule rule rules)
      (λ _. refl)
      λ above.
        later_kept (of_priority p rule) (of_priority p r) rule r (keep_if (of_priority p) rules)
          (keep_if (of_priority p) (insert_rule rule rules))
          (eqb_ℤ-apart rule.meta.priority r.meta.priority p above)
          (keep_if-insert_rule p rule rules)

-- If no priority is below a bound, the sorted rules stand in the order of their priorities from
-- that bound.
pub sort_blob_rules-SortedFrom :
    (low : ℤ) (rules : List BlobRule)
    → All (λ rule. leb_ℤ low rule.meta.priority ≡ true) rules
    → SortedFrom low (sort_blob_rules rules)
unfolding sort_blob_rules
sort_blob_rules-SortedFrom low [] h = tt
sort_blob_rules-SortedFrom low (rule ∷ rules) (h, hs) =
    insert_rule-SortedFrom low rule (sort_blob_rules rules) h
      (sort_blob_rules-SortedFrom low rules hs)

-- Sorting keeps the rules of each priority, all of them and in their order.
pub keep_if-sort_blob_rules :
    (p : ℤ) (rules : List BlobRule)
    → keep_if (of_priority p) (sort_blob_rules rules) ≡ keep_if (of_priority p) rules
unfolding sort_blob_rules
keep_if-sort_blob_rules p [] = refl
keep_if-sort_blob_rules p (rule ∷ rules) =
    keep_if-insert_rule p rule (sort_blob_rules rules)
    ∙ ap (λ rest. if of_priority p rule then rule ∷ rest else rest)
        (keep_if-sort_blob_rules p rules)
