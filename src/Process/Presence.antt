-- ===== src/Process/Presence.antt =====
-- The stages before the expression, applySkipIf and applyPresenceRules of process.go: what they do
-- to the state of the loop.
use schemix.Prelude.{
  Text, ◌≡◌, ◌≢◌, refl, ap, ◌∙◌, Bool, true, false, ◌&&◌, ◌||◌, not, Option, none, some, [], ◌∷◌,
  ◌++◌, arith, if◌then◌else◌, inl, inr, ◌⊎◌,
}
use schemix.Value.{null, bool, GoMap}
use schemix.Nested.{get_nested, is_empty}
use schemix.CueLayer.{reject}
use schemix.Errors.{plain_error, ErrorCode, ErrorType, ValidationError}
use schemix.FailMode.{FailMode, fail_fast, is_fail_fast}
use schemix.Schema.{format_message, Validator, BlobRule, QueryResult, value, query_error, Executor}
use schemix.Process.Rules.{
  LoopState, RuleAction, rule_run, rule_skip, rule_abort, rule_panic, mark_failed, delete_if,
  abort_if_fast, record_rule_error, skip_answer, skip_by, apply_skip_if, required_answer,
  required_by, check_required_if, presence_by, with_result, apply_presence_rules, is_nil,
}

-- The errors, the validity and the group's flag stay, and the validation is not aborted.
abbrev pub Quiet : LoopState → LoopState × RuleAction → Type 0
Quiet st out =
    (out.0.result.errors ≡ st.result.errors)
    × (out.0.result.valid ≡ st.result.valid)
    × (out.0.priority_has_error ≡ st.priority_has_error)
    × (out.1 ≢ rule_abort)

-- One error at the rule's path is added and the group has failed; FailFast aborts, and no other
-- mode does.
abbrev pub Loud : FailMode → Text → LoopState → LoopState × RuleAction → Type 0
Loud mode path st out =
    (e : ValidationError) × (e.path ≡ path)
    × (out.0.result.errors ≡ st.result.errors ++ e ∷ [])
    × (out.0.result.valid ≡ false)
    × (out.0.priority_has_error ≡ true)
    × (((is_fail_fast mode ≡ true) × (out.1 ≡ rule_abort))
        ⊎ ((is_fail_fast mode ≡ false) × (out.1 ≢ rule_abort) × (out.1 ≢ rule_panic)))

abbrev pub Effect : FailMode → Text → LoopState → LoopState × RuleAction → Type 0
Effect mode path st out = Quiet st out ⊎ Loud mode path st out

-- What holds of a stage that other stages follow: an error ends the rule.
abbrev pub EndsRule : FailMode → Text → LoopState → LoopState × RuleAction → Type 0
EndsRule mode path st out = Quiet st out ⊎ (Loud mode path st out × (out.1 ≢ rule_run))

delete_if-Quiet :
    (b : Bool) (path : Text) (st : LoopState) (action : RuleAction)
    → action ≢ rule_abort
    → Quiet st (delete_if b path st, action)
delete_if-Quiet true path st action h = (refl, refl, refl, h)
delete_if-Quiet false path st action h = (refl, refl, refl, h)

-- An error of a rule, with the action that the stage goes on with when it need not stop.
pub one_error-Loud :
    {S : Type 0} (v : Validator S) (mode : FailMode) (e : ValidationError) (path : Text)
    (st : LoopState) (action : RuleAction)
    → e.path ≡ path
    → action ≢ rule_abort
    → action ≢ rule_panic
    → Loud mode path st
        (mark_failed path (with_result st (reject (e ∷ []) st.result)), abort_if_fast v mode action)
unfolding mark_failed
one_error-Loud v fail_fast e path st action p h k = (e, p, refl, refl, refl, inl (refl, refl))
one_error-Loud v mode e path st action p h k = (e, p, refl, refl, refl, inr (refl, h, k))

-- Two states that agree in what `Quiet` and `Loud` speak of.
abbrev Same : LoopState → LoopState → Type 0
Same st st' =
    (st'.result.errors ≡ st.result.errors)
    × (st'.result.valid ≡ st.result.valid)
    × (st'.priority_has_error ≡ st.priority_has_error)

pub Quiet-Same :
    (st st' : LoopState) (out : LoopState × RuleAction) → Same st st' → Quiet st' out → Quiet st out
Quiet-Same st st' out (e, w, f) (e', w', f', h) = (e' ∙ e, w' ∙ w, f' ∙ f, h)

pub Loud-Same :
    (mode : FailMode) (path : Text) (st st' : LoopState) (out : LoopState × RuleAction)
    → Same st st'
    → Loud mode path st' out
    → Loud mode path st out
Loud-Same mode path st st' out (e, w, f) (x, p, errors, invalid, flag, ended) =
    (x, p, errors ∙ ap (λ es. es ++ x ∷ []) e, invalid, flag, ended)

module _ {S : Type 0} (v : Validator S) where
  pub record_rule_error-Loud :
      (mode : FailMode) (code : ErrorCode) (t : ErrorType) (path detail : Text) (st : LoopState)
      (action : RuleAction)
      → action ≢ rule_abort
      → action ≢ rule_panic
      → Loud mode path st
          (record_rule_error v mode code t path detail st, abort_if_fast v mode action)
  unfolding record_rule_error
  record_rule_error-Loud mode code t path detail st action h k =
      one_error-Loud v mode (plain_error code path t (format_message v code path detail)) path st
        action refl h k

  module _ (mode : FailMode) (rule : BlobRule) where
    abort-ne-run :
        (action : RuleAction) → action ≢ rule_run → abort_if_fast v mode action ≢ rule_run
    abort-ne-run action h = ground arith

    skip_answer-EndsRule :
        (q : QueryResult) (st : LoopState)
        → EndsRule mode rule.path st (skip_answer v mode rule q st)
    skip_answer-EndsRule (query_error err) st = inr (
      record_rule_error-Loud mode _ _ rule.path _ st rule_skip (cc) (cc),
      abort-ne-run rule_skip (cc),
    )
    skip_answer-EndsRule (value (bool true)) st =
        inl (delete_if-Quiet rule.meta.omit_if_skip rule.path st rule_skip (cc))
    skip_answer-EndsRule (value (bool false)) st = inl (refl, refl, refl, cc)
    skip_answer-EndsRule (value null) st = inl (refl, refl, refl, cc)
    skip_answer-EndsRule (value _) st = inl (refl, refl, refl, cc)

    skip_by-EndsRule :
        (o : Option Executor) (input : GoMap) (st : LoopState)
        → EndsRule mode rule.path st (skip_by v mode rule o input st)
    skip_by-EndsRule none input st = inl (refl, refl, refl, cc)
    skip_by-EndsRule (some exec) input st = skip_answer-EndsRule (exec input) st

    pub skip_if-EndsRule :
        (input : GoMap) (st : LoopState)
        → EndsRule mode rule.path st (apply_skip_if v mode input rule st)
    unfolding apply_skip_if
    skip_if-EndsRule input st = skip_by-EndsRule rule.meta.skip_if input st

    required_answer-EndsRule :
        (q : QueryResult) (st : LoopState)
        → EndsRule mode rule.path st (required_answer v mode rule q st)
    required_answer-EndsRule (query_error err) st = inr (
      record_rule_error-Loud mode _ _ rule.path _ st rule_skip (cc) (cc),
      abort-ne-run rule_skip (cc),
    )
    required_answer-EndsRule (value (bool true)) st = inr (
      record_rule_error-Loud mode _ _ rule.path _ st rule_skip (cc) (cc),
      abort-ne-run rule_skip (cc),
    )
    required_answer-EndsRule (value (bool false)) st = inl (refl, refl, refl, cc)
    required_answer-EndsRule (value null) st = inl (refl, refl, refl, cc)
    required_answer-EndsRule (value _) st = inl (refl, refl, refl, cc)

    required_by-EndsRule :
        (o : Option Executor) (input : GoMap) (st : LoopState)
        → EndsRule mode rule.path st (required_by v mode rule o input st)
    required_by-EndsRule none input st = inl (refl, refl, refl, cc)
    required_by-EndsRule (some exec) input st = required_answer-EndsRule (exec input) st

    -- Deleting from the output first changes nothing of this.
    EndsRule-delete :
        (b : Bool) (st : LoopState) (out : LoopState × RuleAction)
        → EndsRule mode rule.path (delete_if b rule.path st) out
        → EndsRule mode rule.path st out
    EndsRule-delete true st out h = h
    EndsRule-delete false st out h = h

    pub EndsRule-if :
        (b : Bool) (st : LoopState) (x y : LoopState × RuleAction)
        → EndsRule mode rule.path st x
        → EndsRule mode rule.path st y
        → EndsRule mode rule.path st (if b then x else y)
    EndsRule-if true st x y h k = h
    EndsRule-if false st x y h k = k

    presence_by-EndsRule :
        (input : GoMap) (empty absent : Bool) (st : LoopState)
        → EndsRule mode rule.path st (presence_by v mode input rule empty absent st)
    unfolding check_required_if
    presence_by-EndsRule input empty absent st =
        let emptied = delete_if (empty && rule.meta.omit_empty) rule.path st in
        let omitted = delete_if rule.meta.omit_empty rule.path emptied in
        let asked = required_by v mode rule rule.meta.required_if input omitted in
        let skipped = delete_if (rule.meta.omit_if_skip || rule.meta.omit_empty) rule.path st in
        EndsRule-if (empty && rule.meta.skip_empty) st (skipped, rule_skip)
          (if not rule.meta.optional || not absent then (emptied, rule_run) else asked)
          (inl (
            delete_if-Quiet (rule.meta.omit_if_skip || rule.meta.omit_empty) rule.path st rule_skip
              (cc)))
          (EndsRule-if (not rule.meta.optional || not absent) st (emptied, rule_run) asked
            (inl (delete_if-Quiet (empty && rule.meta.omit_empty) rule.path st rule_run (cc)))
            (EndsRule-delete (empty && rule.meta.omit_empty) st asked (
              EndsRule-delete rule.meta.omit_empty emptied asked
                (required_by-EndsRule rule.meta.required_if input omitted))))

    pub presence-EndsRule :
        (input : GoMap) (st : LoopState)
        → EndsRule mode rule.path st (apply_presence_rules v mode input rule st)
    unfolding apply_presence_rules
    presence-EndsRule input st =
        let val = get_nested input rule.path in
        presence_by-EndsRule input (is_empty val) (is_nil v mode val) st
