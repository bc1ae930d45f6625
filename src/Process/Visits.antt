-- ===== src/Process/Visits.antt =====
-- What one round of the loop over the rules does.
use schemix.Prelude.{
  ℕ, ℤ, Text, text_eq, ◌≡◌, refl, sym, ap, subst, Bool, true, false, ◌&&◌, not, any, take, [], ◌∷◌,
  ◌++◌, arith, if◌then◌else◌, inl, inr, ◌⊎◌,
}
use schemix.GoLib.{GoLib}
use schemix.Value.{GoMap}
use schemix.Errors.{ValidationError}
use schemix.FailMode.{FailMode, is_fail_fast}
use schemix.Schema.{Cue, Validator, BlobRule}
use schemix.Process.Rules.{
  LoopState, RuleAction, rule_run, rule_skip, rule_abort, rule_panic, run_stages,
}
use schemix.Process.Effects.{run_stages-Effect}
use schemix.Process.Presence.{Effect}
use schemix.Process.{
  Visit, stop, go_on, after_stages, enters_group, beyond_failed, visit_clean, visit,
  has_validation_error_at_path,
}

-- The errors, the validity and the group's flag stay.
abbrev pub Unchanged : LoopState → LoopState → Type 0
Unchanged st st' =
    (st'.result.errors ≡ st.result.errors)
    × (st'.result.valid ≡ st.result.valid)
    × (st'.priority_has_error ≡ st.priority_has_error)

-- One error is added at the path, and the group has failed.
abbrev pub AddsOne : Text → LoopState → LoopState → Type 0
AddsOne path st st' =
    (e : ValidationError) × (e.path ≡ path)
    × (st'.result.errors ≡ st.result.errors ++ e ∷ [])
    × (st'.result.valid ≡ false)
    × (st'.priority_has_error ≡ true)

module _ (go : GoLib) {S C : Type 0} (rt : Cue S C) (v : Validator S) (mode : FailMode) where
  module _ (min_failed current : ℤ) (rule : BlobRule) (st : LoopState) where
    abbrev pub next_priority : ℤ
    next_priority = if enters_group go rt v mode current rule then rule.meta.priority else current

    -- The rule may run: it starts no group behind one that failed, and it does not lie beyond the
    -- group in which the CUE layer failed.
    abbrev pub MayRun : Type 0
    MayRun =
        (enters_group go rt v mode current rule ≡ true → st.priority_has_error ≡ false)
        × (beyond_failed go rt v mode min_failed rule ≡ false)

    abbrev pub Visited : Bool → Visit → Type 0
    Visited clean (stop st' panicked) =
        Unchanged st st' ⊎ ((clean ≡ true) × MayRun × AddsOne rule.path st st')
    Visited clean (go_on c st') =
        ((c ≡ current) × Unchanged st st')
        ⊎ (MayRun
            × (c ≡ next_priority)
            × (Unchanged st st'
                ⊎ ((clean ≡ true) × (is_fail_fast mode ≡ false) × AddsOne rule.path st st')))

    Visited-if :
        (b clean : Bool) (x y : Visit)
        → (b ≡ true → Visited clean x)
        → (b ≡ false → Visited clean y)
        → Visited clean (if b then x else y)
    Visited-if true clean x y h k = h refl
    Visited-if false clean x y h k = k refl

    after_stages-Visited :
        (out : LoopState × RuleAction)
        → MayRun
        → Effect mode rule.path st out
        → Visited true (after_stages next_priority out)
    after_stages-Visited (st', rule_run) may (inl (e, w, f, _)) = inr (may, refl, inl (e, w, f))
    after_stages-Visited (st', rule_run) may (inr (e, p, es, w, f, inl (fast, h))) = absurd (cc)
    after_stages-Visited (st', rule_run) may (inr (e, p, es, w, f, inr (slow, _, _))) =
        inr (may, refl, inr (refl, slow, (e, p, es, w, f)))
    after_stages-Visited (st', rule_skip) may (inl (e, w, f, _)) = inr (may, refl, inl (e, w, f))
    after_stages-Visited (st', rule_skip) may (inr (e, p, es, w, f, inl (fast, h))) = absurd (cc)
    after_stages-Visited (st', rule_skip) may (inr (e, p, es, w, f, inr (slow, _, _))) =
        inr (may, refl, inr (refl, slow, (e, p, es, w, f)))
    after_stages-Visited (st', rule_abort) may (inl (e, w, f, _)) = inl (e, w, f)
    after_stages-Visited (st', rule_abort) may (inr (e, p, es, w, f, _)) =
        inr (refl, may, (e, p, es, w, f))
    after_stages-Visited (st', rule_panic) may (inl (e, w, f, _)) = inl (e, w, f)
    after_stages-Visited (st', rule_panic) may (inr (e, p, es, w, f, _)) =
        inr (refl, may, (e, p, es, w, f))

    visit_clean-Visited :
        (input : GoMap) → Visited true (visit_clean go rt v mode input min_failed current rule st)
    unfolding visit_clean
    visit_clean-Visited input =
        let out = run_stages go rt v mode input rule st in
        let ran = after_stages next_priority out in
        let skipped = rule.meta.fail_fast && any (text_eq rule.path) st.failed_paths in
        let entering = enters_group go rt v mode current rule && st.priority_has_error in
        let beyond = beyond_failed go rt v mode min_failed rule in
        Visited-if entering true (stop st false)
          (if beyond then stop st false else if skipped then go_on next_priority st else ran)
          (λ _. inl (refl, refl, refl))
          λ fresh.
            Visited-if beyond true (stop st false) (if skipped then go_on next_priority st else ran)
              (λ _. inl (refl, refl, refl))
              λ within.
                let may : MayRun = (ground arith, within) in
                Visited-if skipped true (go_on next_priority st) ran
                  (λ _. inr (may, refl, inl (refl, refl, refl)))
                  λ _. after_stages-Visited out may (run_stages-Effect v mode rule go rt input st)

    -- A round leaves the errors, or adds one at the rule's path; it adds none where the CUE layer
    -- has failed at or below that path.
    pub visit-Visited :
        (input : GoMap) (n : ℕ)
        → Visited
            (not (has_validation_error_at_path (take n st.result.errors) rule.path))
            (visit go rt v mode input n min_failed current rule st)
    unfolding visit
    visit-Visited input n =
        let bad = has_validation_error_at_path (take n st.result.errors) rule.path in
        let clean_round = visit_clean go rt v mode input min_failed current rule st in
        Visited-if bad (not bad)
          (go_on current (record st { failed_paths = rule.path ∷ st.failed_paths })) clean_round
          (λ _. inl (refl, (refl, refl, refl)))
          λ clean.
            subst (λ c. Visited c clean_round) (sym (ap not clean)) (visit_clean-Visited input)
