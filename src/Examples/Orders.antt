-- ===== src/Examples/Orders.antt =====
-- The order of two rules.
use schemix.Prelude.{pos, negsuc, ◌≡◌, refl, List, [], ◌∷◌, keep_if, text, false}
use schemix.Schema.{BlobRule, value}
use schemix.Value.{bool}
use schemix.Compile.{sort_blob_rules}
use schemix.Compile.Sorted.{of_priority, sort_blob_rules-SortedFrom, keep_if-sort_blob_rules}
use schemix.Process.Groups.{SortedFrom}
use schemix.Examples.{rule_at, rejecting}

abbrev late : BlobRule
late = rule_at (text "name") (pos 2) λ input. value (bool false)

abbrev unsorted : List BlobRule
unsorted = late ∷ rejecting ∷ []

sorts : sort_blob_rules unsorted ≡ rejecting ∷ late ∷ []
unfolding sort_blob_rules
sorts = refl

sort_blob_rules-SortedFrom_example : SortedFrom (negsuc 0) (sort_blob_rules unsorted)
sort_blob_rules-SortedFrom_example =
    sort_blob_rules-SortedFrom (negsuc 0) unsorted (refl, (refl, tt))

keep_if-sort_blob_rules_example :
    keep_if (of_priority (pos 1)) (sort_blob_rules unsorted)
    ≡ keep_if (of_priority (pos 1)) unsorted
keep_if-sort_blob_rules_example = keep_if-sort_blob_rules (pos 1) unsorted
