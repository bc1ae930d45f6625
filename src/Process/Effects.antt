-- ===== src/Process/Effects.antt =====
-- The stages of a rule in process.go: what they do to the state of the loop.
use schemix.Prelude.{
  ◌≡◌, refl, sym, subst, Bool, true, false, ◌||◌, Option, none, some, List, [], ◌∷◌, inl, inr,
}
use schemix.GoLib.{GoLib}
use schemix.Value.{Value, null, bool, GoMap, Entries}
use schemix.Nested.{set_nested}
use schemix.CueLayer.{reject}
use schemix.Errors.{ValidationError, Result}
use schemix.FailMode.{FailMode}
use schemix.Classify.{CueError}
use schemix.Schema.{Cue, Validator, FieldDescr, BlobRule, QueryResult, value, query_error, Executor}
use schemix.Process.Priority.{find_cue_field}
use schemix.Process.Rules.{
  LoopState, RuleAction, rule_run, rule_skip, rule_abort, rule_panic, mark_failed, abort_if_fast,
  apply_skip_if, apply_presence_rules, scalar_fits, check_validated, check_by_cue, check_fit,
  check_blob_result_type, written, write_to, write_output, store_checked, apply_answer, exec_by,
  exec_blob_rule, then_stage, guarded_presence, run_stages,
}
use schemix.Process.Presence.{
  Quiet, Loud, Effect, EndsRule, one_error-Loud, record_rule_error-Loud, Quiet-Same, Loud-Same,
  skip_if-EndsRule, EndsRule-if, presence-EndsRule,
}

module _ {S : Type 0} (v : Validator S) where
  module _ (mode : FailMode) (rule : BlobRule) where
    module _ (go : GoLib) {C : Type 0} (rt : Cue S C) where
      -- What the type check returns: the result as it was, or with one error at the rule's path.
      abbrev Checked : Result → Result × Bool → Type 0
      Checked r (r', true) = r' ≡ r
      Checked r (r', false) =
          (e : ValidationError) × (e.path ≡ rule.path) × (r' ≡ reject (e ∷ []) r)

      validated-Checked :
          (val : Value) (f : FieldDescr S) (o : Option (List CueError)) (r : Result)
          → Checked r (check_validated v mode go rt rule val f o r)
      validated-Checked val f none r = refl
      validated-Checked val f (some errs) r = (_, refl, refl)

      by_cue-Checked :
          (val : Value) (o : Option (FieldDescr S)) (r : Result)
          → Checked r (check_by_cue v mode go rt rule val o r)
      by_cue-Checked val none r = refl
      by_cue-Checked val (some f) r =
          validated-Checked val f (rt.validate f.schema (rt.encode_value val)) r

      fit-Checked :
          (val : Value) (o : Option Bool) (r : Result)
          → Checked r (check_fit v mode go rt rule val o r)
      fit-Checked val (some true) r = refl
      fit-Checked val (some false) r = (_, refl, refl)
      fit-Checked val none r = by_cue-Checked val (find_cue_field v.cue_fields rule.path) r

      written-Quiet : (o : Option Entries) (st : LoopState) → Quiet st (written v mode go rt o st)
      written-Quiet none st = (refl, refl, refl, cc)
      written-Quiet (some m) st = (refl, refl, refl, cc)

      write_to-Quiet :
          (val : Value) (o : GoMap) (st : LoopState)
          → Quiet st (write_to v mode go rt rule.path val o st)
      write_to-Quiet val none st = (refl, refl, refl, cc)
      write_to-Quiet val (some m) st = written-Quiet (set_nested m rule.path val) st

      write_output-Quiet :
          (val : Value) (st : LoopState) → Quiet st (write_output v mode go rt rule.path val st)
      unfolding write_output
      write_output-Quiet val st = write_to-Quiet val st.result.output st

      store_checked-Effect :
          (val : Value) (st : LoopState) (out : Result × Bool)
          → Checked st.result out
          → Effect mode rule.path st (store_checked v mode go rt rule val st out)
      store_checked-Effect val st (r, true) h = inl (
          subst (λ x. Quiet st (write_output v mode go rt rule.path val (record st { result = x })))
            (sym h) (write_output-Quiet val st))
      store_checked-Effect val st (r, false) (e, p, h) = inr (
          subst
            (λ x.
              Loud mode rule.path st
                (mark_failed rule.path (record st { result = x }), abort_if_fast v mode rule_run))
            (sym h) (one_error-Loud v mode e rule.path st rule_run p (cc) (cc)))

      answer-Effect :
          (q : QueryResult) (st : LoopState)
          → Effect mode rule.path st (apply_answer v mode go rt rule q st)
      unfolding apply_answer check_blob_result_type
      answer-Effect (query_error err) st =
          inr (record_rule_error-Loud v mode _ _ rule.path _ st rule_run (cc) (cc))
      answer-Effect (value (bool true)) st = inl (refl, refl, refl, cc)
      answer-Effect (value (bool false)) st =
          inr (record_rule_error-Loud v mode _ _ rule.path _ st rule_run (cc) (cc))
      answer-Effect (value null) st =
          store_checked-Effect null st _
            (fit-Checked null (scalar_fits v mode rule.result_kind null) st.result)
      answer-Effect (value val) st =
          store_checked-Effect val st _
            (fit-Checked val (scalar_fits v mode rule.result_kind val) st.result)

      exec_by-Effect :
          (o : Option Executor) (input : GoMap) (st : LoopState)
          → Effect mode rule.path st (exec_by v mode go rt rule o input st)
      exec_by-Effect none input st = inl (refl, refl, refl, cc)
      exec_by-Effect (some exec) input st = answer-Effect (exec input) st

      exec-Effect :
          (input : GoMap) (st : LoopState)
          → Effect mode rule.path st (exec_blob_rule v mode go rt input rule st)
      unfolding exec_blob_rule
      exec-Effect input st = exec_by-Effect rule.exec input st

      abbrev next_stage :
          LoopState × RuleAction → (LoopState → LoopState × RuleAction) → LoopState × RuleAction
      next_stage out next = then_stage v mode go rt out next

      then-EndsRule :
          (st : LoopState) (out : LoopState × RuleAction)
          (next : LoopState → LoopState × RuleAction)
          → EndsRule mode rule.path st out
          → ((st' : LoopState) → EndsRule mode rule.path st' (next st'))
          → EndsRule mode rule.path st (next_stage out next)
      then-EndsRule st (st', rule_run) next (inl (e, w, f, _)) k = elim (k st') [
        | inl q ↦ inl (Quiet-Same st st' (next st') (e, w, f) q)
        | inr (l, h) ↦ inr (Loud-Same mode rule.path st st' (next st') (e, w, f) l, h)
      ]
      then-EndsRule st (st', rule_run) next (inr (_, h)) k = absurd (h refl)
      then-EndsRule st (st', rule_skip) next h k = h
      then-EndsRule st (st', rule_abort) next h k = h
      then-EndsRule st (st', rule_panic) next h k = h

      then-Effect :
          (st : LoopState) (out : LoopState × RuleAction)
          (next : LoopState → LoopState × RuleAction)
          → EndsRule mode rule.path st out
          → ((st' : LoopState) → Effect mode rule.path st' (next st'))
          → Effect mode rule.path st (next_stage out next)
      then-Effect st (st', rule_run) next (inl (e, w, f, _)) k = elim (k st') [
        | inl q ↦ inl (Quiet-Same st st' (next st') (e, w, f) q)
        | inr l ↦ inr (Loud-Same mode rule.path st st' (next st') (e, w, f) l)
      ]
      then-Effect st (st', rule_run) next (inr (_, h)) k = absurd (h refl)
      then-Effect st (st', rule_skip) next (inl q) k = inl q
      then-Effect st (st', rule_skip) next (inr (l, _)) k = inr l
      then-Effect st (st', rule_abort) next (inl q) k = inl q
      then-Effect st (st', rule_abort) next (inr (l, _)) k = inr l
      then-Effect st (st', rule_panic) next (inl q) k = inl q
      then-Effect st (st', rule_panic) next (inr (l, _)) k = inr l

      guarded-EndsRule :
          (input : GoMap) (st : LoopState)
          → EndsRule mode rule.path st (guarded_presence v mode go rt input rule st)
      guarded-EndsRule input st =
          EndsRule-if v mode rule
            (rule.meta.skip_empty || rule.meta.omit_empty || rule.meta.optional) st
            (apply_presence_rules v mode input rule st) (st, rule_run)
            (presence-EndsRule v mode rule input st) (inl (refl, refl, refl, cc))

      -- The stages of a rule together leave the errors, the validity and the group's flag as they
      -- are and do not abort, or they add one error at the rule's path, make the result invalid and
      -- mark the group as failed; after an error they abort in FailFast, and in every other mode
      -- they neither abort nor panic.
      pub run_stages-Effect :
          (input : GoMap) (st : LoopState)
          → Effect mode rule.path st (run_stages go rt v mode input rule st)
      unfolding run_stages
      run_stages-Effect input st =
          let skipped = apply_skip_if v mode input rule st in
          let presence = guarded_presence v mode go rt input rule in
          then-Effect st (next_stage skipped presence) (exec_blob_rule v mode go rt input rule)
            (then-EndsRule st skipped presence (skip_if-EndsRule v mode rule input st)
              (guarded-EndsRule input))
            (exec-Effect input)
