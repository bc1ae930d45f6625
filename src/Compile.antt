-- ===== src/Compile.antt =====
-- compile.go: the compilation of a schema; here the order in which the loop runs the rules.
-- `slices.SortStableFunc` is modelled by what its documentation says: the rules are sorted, and
-- equal ones keep their order.
pub mod Sorted
pub mod Meta
pub mod Controls
pub mod Rules
pub mod Extract
pub mod Depth
pub mod Fields
use schemix.Prelude.{Bool, List, [], ◌∷◌, leb_ℤ, if◌then◌else◌}
use schemix.Schema.{BlobRule}

unfoldable pub insert_rule : BlobRule → List BlobRule → List BlobRule
insert_rule rule [] = rule ∷ []
insert_rule rule (r ∷ rules) =
    let rest = insert_rule rule rules in
    if leb_ℤ rule.meta.priority r.meta.priority then rule ∷ r ∷ rules else r ∷ rest

unfoldable pub sort_blob_rules : List BlobRule → List BlobRule
unfolding insert_rule
sort_blob_rules [] = []
sort_blob_rules (rule ∷ rules) = insert_rule rule (sort_blob_rules rules)
