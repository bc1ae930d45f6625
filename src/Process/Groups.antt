-- ===== src/Process/Groups.antt =====
-- The loop of processInternal under FailPriority: the groups of the rules that fail.
use schemix.Prelude.{
  ℕ, ℤ, ◌≡◌, refl, sym, ap, subst, ◌∙◌, Bool, true, false, ◌&&◌, List, [], ◌∷◌, ◌++◌, ltb_ℤ, leb_ℤ,
  leb_ℤ-trans, leb_ℤ-squeeze, append_assoc, append-nil, arith, inl, inr, if◌then◌else◌,
}
use schemix.GoLib.{GoLib}
use schemix.Value.{GoMap}
use schemix.Errors.{ValidationError}
use schemix.FailMode.{fail_priority}
use schemix.Schema.{Cue, Validator, BlobRule}
use schemix.Process.Priority.{max_int}
use schemix.Process.Rules.{LoopState}
use schemix.Process.Visits.{Unchanged, AddsOne, Visited, MayRun, visit-Visited}
use schemix.Process.Loop.{Raised, no_more, passed, failed}
use schemix.Process.{Visit, stop, go_on, then_rules, run_rules}

-- The rules stand in the order of their priorities, from the given one.
abbrev pub SortedFrom : ℤ → List BlobRule → Type 0
SortedFrom low [] = Unit
SortedFrom low (rule ∷ rules) =
    (leb_ℤ low rule.meta.priority ≡ true) × SortedFrom rule.meta.priority rules

-- The rule is of the group, and not beyond the one in which the CUE layer failed.
abbrev pub OfGroup : ℤ → ℤ → BlobRule → Type 0
OfGroup min_failed q rule =
    (rule.meta.priority ≡ q)
    × ((ltb_ℤ min_failed max_int && ltb_ℤ min_failed rule.meta.priority) ≡ false)

leb_ℤ-refl : (a : ℤ) → leb_ℤ a a ≡ true
leb_ℤ-refl a = ground arith

climb : (a b : ℤ) → leb_ℤ a b ≡ true → (if ltb_ℤ a b then b else a) ≡ b
climb a b h = ground arith

module _ (go : GoLib) {S C : Type 0} (rt : Cue S C) (v : Validator S) where
  module _ (input : GoMap) (n : ℕ) (min_failed : ℤ) where
    abbrev pub OneGroup : ℤ → List BlobRule → LoopState → LoopState → Type 0
    OneGroup q rules st st' =
        (es : List ValidationError) × (st'.result.errors ≡ st.result.errors ++ es)
        × Raised (OfGroup min_failed q) rules es

    end_here :
        (q : ℤ) (rules : List BlobRule) (st st' : LoopState)
        → Unchanged st st'
        → OneGroup q rules st st'
    end_here q rules st st' (e, w, f) = ([], e ∙ sym (append-nil st.result.errors), no_more)

    end_one :
        (q : ℤ) (rule : BlobRule) (rules : List BlobRule) (st st' : LoopState)
        → OfGroup min_failed q rule
        → AddsOne rule.path st st'
        → OneGroup q (rule ∷ rules) st st'
    end_one q rule rules st st' g (e, p, d, w, f) = (e ∷ [], d, failed e p g no_more)

    after-Unchanged :
        (q : ℤ) (rule : BlobRule) (rules : List BlobRule) (st st' out : LoopState)
        → Unchanged st st'
        → OneGroup q rules st' out
        → OneGroup q (rule ∷ rules) st out
    after-Unchanged q rule rules st st' out (e, w, f) (es, d, by_rules) =
        (es, d ∙ ap (λ ds. ds ++ es) e, passed by_rules)

    after_one :
        (q : ℤ) (rule : BlobRule) (rules : List BlobRule) (st st' out : LoopState)
        → OfGroup min_failed q rule
        → AddsOne rule.path st st'
        → OneGroup q rules st' out
        → OneGroup q (rule ∷ rules) st out
    after_one q rule rules st st' out g (e, p, d, w, f) (es, ds, by_rules) = (
      e ∷ es,
      ds ∙ ap (λ xs. xs ++ es) d ∙ append_assoc st.result.errors (e ∷ []) es,
      failed e p g by_rules,
    )

    module _ (current : ℤ) (rule : BlobRule) (rules : List BlobRule) (st : LoopState) where
      abbrev Round : Bool → Visit → Type 0
      Round clean x = Visited go rt v fail_priority min_failed current rule st clean x

      -- In a group that has failed, a rule that may run belongs to it.
      same_group :
          leb_ℤ current rule.meta.priority ≡ true
          → st.priority_has_error ≡ true
          → MayRun go rt v fail_priority min_failed current rule st
          → rule.meta.priority ≡ current
      same_group h flag (fresh, _) =
          leb_ℤ-squeeze current rule.meta.priority rule.meta.priority h (ground arith)
            (ground arith)

      Round-failed :
          (clean : Bool) (x : Visit) (next : ℤ → LoopState → LoopState × Bool)
          → leb_ℤ current rule.meta.priority ≡ true
          → st.priority_has_error ≡ true
          → Round clean x
          → ((c : ℤ) (st' : LoopState)
              → c ≡ current
              → st'.priority_has_error ≡ true
              → OneGroup current rules st' (next c st').0)
          → OneGroup current (rule ∷ rules) st (then_rules x next).0
      Round-failed clean (stop st' panicked) next h flag (inl same) k =
          end_here current (rule ∷ rules) st st' same
      Round-failed clean (stop st' panicked) next h flag (inr (_, may, one)) k =
          end_one current rule rules st st' (same_group h flag may, may.1) one
      Round-failed clean (go_on c st') next h flag (inl (e, same)) k =
          after-Unchanged current rule rules st st' (next c st').0 same (k c st' e (same.2 ∙ flag))
      Round-failed clean (go_on c st') next h flag (inr (may, e, inl same)) k =
          after-Unchanged current rule rules st st' (next c st').0 same (
            k c st' (e ∙ climb current rule.meta.priority h ∙ same_group h flag may)
              (same.2 ∙ flag))
      Round-failed clean (go_on c st') next h flag (inr (may, e, inr (_, _, one))) k =
          after_one current rule rules st st' (next c st').0 (same_group h flag may, may.1) one
            (k c st' (e ∙ climb current rule.meta.priority h ∙ same_group h flag may) (one.4))

      Round-any :
          (clean : Bool) (x : Visit) (next : ℤ → LoopState → LoopState × Bool)
          → leb_ℤ current rule.meta.priority ≡ true
          → Round clean x
          → ((c : ℤ) (st' : LoopState)
              → leb_ℤ c rule.meta.priority ≡ true
              → (q : ℤ) × OneGroup q rules st' (next c st').0)
          → ((c : ℤ) (st' : LoopState)
              → c ≡ rule.meta.priority
              → st'.priority_has_error ≡ true
              → OneGroup rule.meta.priority rules st' (next c st').0)
          → (q : ℤ) × OneGroup q (rule ∷ rules) st (then_rules x next).0
      Round-any clean (stop st' panicked) next h (inl same) k l =
          (current, end_here current (rule ∷ rules) st st' same)
      Round-any clean (stop st' panicked) next h (inr (_, may, one)) k l =
          (rule.meta.priority, end_one rule.meta.priority rule rules st st' (refl, may.1) one)
      Round-any clean (go_on c st') next h (inl (e, same)) k l =
          let (q, rest) = k c st' (subst (λ d. leb_ℤ d rule.meta.priority ≡ true) (sym e) h) in
          (q, after-Unchanged q rule rules st st' (next c st').0 same rest)
      Round-any clean (go_on c st') next h (inr (may, e, inl same)) k l =
          let at : c ≡ rule.meta.priority = e ∙ climb current rule.meta.priority h in
          let (q, rest) = k c st' (
            subst (λ d. leb_ℤ d rule.meta.priority ≡ true) (sym at)
              (leb_ℤ-refl rule.meta.priority)) in
          (q, after-Unchanged q rule rules st st' (next c st').0 same rest)
      Round-any clean (go_on c st') next h (inr (may, e, inr (_, _, one))) k l = (
        rule.meta.priority,
        after_one rule.meta.priority rule rules st st' (next c st').0 (refl, may.1) one
            (l c st' (e ∙ climb current rule.meta.priority h) (one.4)),
      )

    abbrev looped : ℤ → List BlobRule → LoopState → LoopState
    looped current rules st =
        (run_rules go rt v fail_priority input n min_failed current rules st).0

    run_rules-failed :
        (current low : ℤ) (rules : List BlobRule) (st : LoopState)
        → leb_ℤ current low ≡ true
        → SortedFrom low rules
        → st.priority_has_error ≡ true
        → OneGroup current rules st (looped current rules st)
    unfolding run_rules
    run_rules-failed current low [] st h s flag = end_here current [] st st (refl, refl, refl)
    run_rules-failed current low (rule ∷ rules) st h (s, sorted) flag =
        let up = leb_ℤ-trans current low rule.meta.priority h s in
        Round-failed current rule rules st _ _ _ up flag
          (visit-Visited go rt v fail_priority min_failed current rule st input n)
          λ c st' e f.
            subst (λ q. OneGroup q rules st' (looped c rules st')) e
              (run_rules-failed c rule.meta.priority rules st'
                (subst (λ d. leb_ℤ d rule.meta.priority ≡ true) (sym e) up) sorted f)

    -- The errors that the loop adds are of rules of one group, which does not lie beyond the one
    -- in which the CUE layer failed.
    pub run_rules-OneGroup :
        (current low : ℤ) (rules : List BlobRule) (st : LoopState)
        → leb_ℤ current low ≡ true
        → SortedFrom low rules
        → (q : ℤ) × OneGroup q rules st (looped current rules st)
    unfolding run_rules
    run_rules-OneGroup current low [] st h s =
        (current, end_here current [] st st (refl, refl, refl))
    run_rules-OneGroup current low (rule ∷ rules) st h (s, sorted) =
        let up = leb_ℤ-trans current low rule.meta.priority h s in
        Round-any current rule rules st _ _ _ up
          (visit-Visited go rt v fail_priority min_failed current rule st input n)
          (λ c st' below. run_rules-OneGroup c rule.meta.priority rules st' below sorted)
          λ c st' e f.
            subst (λ q. OneGroup q rules st' (looped c rules st')) e
              (run_rules-failed c rule.meta.priority rules st'
                (subst (λ d. leb_ℤ d rule.meta.priority ≡ true) (sym e)
                  (leb_ℤ-refl rule.meta.priority))
                sorted f)
