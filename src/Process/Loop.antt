-- ===== src/Process/Loop.antt =====
-- What the loop over the rules adds to the errors.
use schemix.Prelude.{
  ◌≤◌, ℤ, Text, ◌≡◌, refl, sym, ap, ◌∙◌, Bool, true, false, ◌&&◌, not, List, [], ◌∷◌, ◌++◌, length,
  take, append_assoc, append-nil, arith, inl, inr,
}
use schemix.GoLib.{GoLib}
use schemix.Value.{GoMap}
use schemix.Errors.{ValidationError}
use schemix.FailMode.{FailMode, is_fail_fast}
use schemix.CueLayer.Growth.{no_errors, &&-true, &&-false}
use schemix.Schema.{Cue, Validator, BlobRule}
use schemix.Process.Rules.{LoopState}
use schemix.Process.Visits.{Unchanged, AddsOne, Visited, visit-Visited}
use schemix.Process.{Visit, stop, go_on, then_rules, run_rules, has_validation_error_at_path}

-- The errors are those of some of the rules: in the order of the list, one for a rule, at the
-- rule's path, and each of these rules has the property.
pub data Raised (P : BlobRule → Type 0) : List BlobRule → List ValidationError → Type 0 where
  no_more : {rules : List BlobRule} → Raised P rules []
  passed :
      {rule : BlobRule} {rules : List BlobRule} {es : List ValidationError}
      → Raised P rules es
      → Raised P (rule ∷ rules) es
  failed :
      {rule : BlobRule} {rules : List BlobRule} {es : List ValidationError} (e : ValidationError)
      → e.path ≡ rule.path
      → P rule
      → Raised P rules es
      → Raised P (rule ∷ rules) (e ∷ es)

-- The CUE layer has no error at the rule's path or below it.
abbrev pub Clean : List ValidationError → BlobRule → Type 0
Clean cue rule = has_validation_error_at_path cue rule.path ≡ false

take-length : {A : Type 0} (xs ys : List A) → take (length xs) (xs ++ ys) ≡ xs
take-length [] ys = refl
take-length (x ∷ xs) ys = ap (λ zs. x ∷ zs) (take-length xs ys)

module _ (go : GoLib) {S C : Type 0} (rt : Cue S C) (v : Validator S) (mode : FailMode) where
  module _ (input : GoMap) (min_failed : ℤ) (cue : List ValidationError) where
    abbrev pub Added : List BlobRule → LoopState → LoopState → Type 0
    Added rules st st' =
        (es : List ValidationError) × (st'.result.errors ≡ st.result.errors ++ es)
        × (st'.result.valid ≡ (st.result.valid && no_errors es))
        × (is_fail_fast mode ≡ true → length es ≤ 1)
        × Raised (Clean cue) rules es

    -- The state has the errors of the CUE layer in front.
    abbrev Behind : LoopState → Type 0
    Behind st = (es : List ValidationError) × (st.result.errors ≡ cue ++ es)

    Unchanged-Added :
        (rules : List BlobRule) (st st' : LoopState) → Unchanged st st' → Added rules st st'
    Unchanged-Added rules st st' (e, w, f) = (
      [],
      e ∙ sym (append-nil st.result.errors),
      w ∙ sym (&&-true st.result.valid),
      λ _. omega arith,
      no_more,
    )

    one-Added :
        (rule : BlobRule) (rules : List BlobRule) (st st' : LoopState)
        → Clean cue rule
        → AddsOne rule.path st st'
        → Added (rule ∷ rules) st st'
    one-Added rule rules st st' clean (e, p, es, w, f) =
        (e ∷ [], es, w ∙ sym (&&-false st.result.valid), λ _. omega arith, failed e p clean no_more)

    after-Unchanged :
        (rule : BlobRule) (rules : List BlobRule) (st st' out : LoopState)
        → Unchanged st st'
        → Added rules st' out
        → Added (rule ∷ rules) st out
    after-Unchanged rule rules st st' out (e, w, f) (es, d, u, short, by_rules) =
        (es, d ∙ ap (λ ds. ds ++ es) e, u ∙ ap (λ b. b && no_errors es) w, short, passed by_rules)

    after_one :
        (rule : BlobRule) (rules : List BlobRule) (st st' out : LoopState)
        → Clean cue rule
        → is_fail_fast mode ≡ false
        → AddsOne rule.path st st'
        → Added rules st' out
        → Added (rule ∷ rules) st out
    after_one rule rules st st' out clean slow (e, p, d, w, f) (es, ds, ws, short, by_rules) = (
      e ∷ es,
      ds ∙ ap (λ xs. xs ++ es) d ∙ append_assoc st.result.errors (e ∷ []) es,
      ws ∙ ap (λ b. b && no_errors es) w ∙ sym (&&-false st.result.valid),
      λ fast. absurd (cc),
      failed e p clean by_rules,
    )

    -- The errors of the CUE layer stay in front.
    Behind-Unchanged : (st st' : LoopState) → Unchanged st st' → Behind st → Behind st'
    Behind-Unchanged st st' (e, w, f) (es, b) = (es, e ∙ b)

    Behind-one : (path : Text) (st st' : LoopState) → AddsOne path st st' → Behind st → Behind st'
    Behind-one path st st' (e, p, d, w, f) (es, b) =
        (es ++ e ∷ [], d ∙ ap (λ xs. xs ++ e ∷ []) b ∙ append_assoc cue es (e ∷ []))

    Clean-path :
        (st : LoopState) (rule : BlobRule)
        → Behind st
        → not (has_validation_error_at_path (take (length cue) st.result.errors) rule.path) ≡ true
        → Clean cue rule
    Clean-path st rule (es, b) h =
        let front = ap (take (length cue)) b ∙ take-length cue es in
        let same = ap (λ xs. has_validation_error_at_path xs rule.path) front in ground arith

    round-Added :
        (current : ℤ) (rule : BlobRule) (rules : List BlobRule) (st : LoopState) (clean : Bool)
        (x : Visit) (next : ℤ → LoopState → LoopState × Bool)
        → Behind st
        → (clean ≡ true → Clean cue rule)
        → Visited go rt v mode min_failed current rule st clean x
        → ((c : ℤ) (st' : LoopState) → Behind st' → Added rules st' (next c st').0)
        → Added (rule ∷ rules) st (then_rules x next).0
    round-Added current rule rules st clean (stop st' panicked) next b h (inl same) k =
        Unchanged-Added (rule ∷ rules) st st' same
    round-Added current rule rules st clean (stop st' panicked) next b h (inr (c, may, one)) k =
        one-Added rule rules st st' (h c) one
    round-Added current rule rules st clean (go_on c st') next b h (inl (_, same)) k =
        after-Unchanged rule rules st st' (next c st').0 same
          (k c st' (Behind-Unchanged st st' same b))
    round-Added current rule rules st clean (go_on c st') next b h (inr (may, _, inl same)) k =
        after-Unchanged rule rules st st' (next c st').0 same
          (k c st' (Behind-Unchanged st st' same b))
    round-Added current rule rules st clean (go_on c st') next b h
          (inr (may, _, inr (d, slow, one))) k =
        after_one rule rules st st' (next c st').0 (h d) slow one
          (k c st' (Behind-one rule.path st st' one b))

    -- The loop adds errors of rules that lie at no error of the CUE layer, and in FailFast at most
    -- one.
    pub run_rules-Added :
        (current : ℤ) (rules : List BlobRule) (st : LoopState)
        → Behind st
        → Added rules st (run_rules go rt v mode input (length cue) min_failed current rules st).0
    unfolding run_rules
    run_rules-Added current [] st b = Unchanged-Added [] st st (refl, refl, refl)
    run_rules-Added current (rule ∷ rules) st b =
        round-Added current rule rules st _ _ _ b (Clean-path st rule b)
          (visit-Visited go rt v mode min_failed current rule st input (length cue))
          λ c st' b'. run_rules-Added c rules st' b'
