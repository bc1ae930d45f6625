-- ===== src/Registry/Runs.antt =====
-- The store of registry.go over sequences of calls: it is a function from names to validators.
use schemix.Prelude.{
  Text, text_eq, text_eq_iff, ◌≡◌, refl, sym, ap, ◌∙◌, subst, Bool, true, false, Option, none, some,
  List, [], ◌∷◌, ◌++◌, if◌then◌else◌, arith, if-case,
}
use schemix.GoLib.{GoLib}
use schemix.Fallible.{Fallible, ok, fail}
use schemix.Registry.{
  Registry, file, unfile, get, has, is_some, put, unregister, register, register_built, put_error,
  register_error,
}

-- A call that may change the registry.
pub data Call {ℓ κ} (V : Type ℓ) (O : Type κ) : Type (ℓ ⊔ κ) where
  register_call : Text → Text → List O → Call V O
  put_call : Text → Option V → Call V O
  unregister_call : Text → Call V O

-- What a call answers.
pub data Answer : Type 0 where
  stored : Answer
  refused : Text → Answer
  removed : Bool → Answer

absent_lem {ℓ} : {V : Type ℓ} (o : Option V) → is_some o ≡ false → o ≡ none
absent_lem none h = refl
absent_lem (some v) h = absurd (cc)

abbrev answer_of : Option Text → Answer
answer_of none = stored
answer_of (some e) = refused e

module _ {ℓ} {V : Type ℓ} where
  abbrev pub with_entry : Text → Option V → (Text → Option V) → Text → Option V
  with_entry name o f key = if text_eq name key then o else f key

  get-file :
      (name : Text) (v : V) (r : Registry V) (key : Text)
      → get (file name v r) key ≡ with_entry name (some v) (get r) key
  unfolding get file
  get-file name v [] key = refl
  get-file name v ((n, w) ∷ r) key =
      ground
        (arith, get-file name v r key, text_eq_iff n name, text_eq_iff n key, text_eq_iff name key)

  get-unfile :
      (name : Text) (r : Registry V) (key : Text)
      → get (unfile name r) key ≡ with_entry name none (get r) key
  unfolding get unfile
  get-unfile name [] key = ground arith
  get-unfile name ((n, w) ∷ r) key =
      ground
        (arith, get-unfile name r key, text_eq_iff n name, text_eq_iff n key, text_eq_iff name key)

  -- Nothing is stored under the name already.
  get-absent :
      (name : Text) (r : Registry V) (key : Text)
      → has r name ≡ false
      → get r key ≡ with_entry name none (get r) key
  unfolding has
  get-absent name r key h =
      if-case (λ o. get r key ≡ o) (text_eq name key) none (get r key)
        (λ e.
          absent_lem (get r key)
            (subst (λ k. is_some (get r k) ≡ false) ((text_eq_iff name key).0 e) h))
        (λ e. refl)

  abbrev unregistered : Bool × Registry V → Answer × Registry V
  unregistered (b, r) = (removed b, r)

  module _ {κ} {O : Type κ} (go : GoLib) (build : Text → List O → Fallible V)
      (with_name : Text → O) where
    unfoldable pub call : Call V O → Registry V → Answer × Registry V
    unfolding put register unregister
    call (register_call name src opts) r =
        let (e, r') = register go build with_name name src opts r in (answer_of e, r')
    call (put_call name v) r = let (e, r') = put go name v r in (answer_of e, r')
    call (unregister_call name) r = unregistered (unregister name r)

    -- The calls in their order, with their answers.
    unfoldable pub run : List (Call V O) → Registry V → List Answer × Registry V
    unfolding call
    run [] r = ([], r)
    run (c ∷ cs) r = let (a, r') = call c r in let (answers, r'') = run cs r' in (a ∷ answers, r'')

    abbrev file_built : Text → Fallible V → (Text → Option V) → Answer × (Text → Option V)
    file_built name (fail e) f = (refused (register_error go name e), f)
    file_built name (ok v) f = (stored, with_entry name (some v) f)

    -- The same call on a function from names to validators.
    abbrev on_function : Call V O → (Text → Option V) → Answer × (Text → Option V)
    on_function (register_call name src opts) f =
        file_built name (build src (opts ++ with_name name ∷ [])) f
    on_function (put_call name none) f = (refused (put_error go name), f)
    on_function (put_call name (some v)) f = (stored, with_entry name (some v) f)
    on_function (unregister_call name) f = (removed (is_some (f name)), with_entry name none f)

    abbrev pub replay : List (Call V O) → (Text → Option V) → List Answer × (Text → Option V)
    replay [] f = ([], f)
    replay (c ∷ cs) f =
        let (a, f') = on_function c f in let (answers, f'') = replay cs f' in (a ∷ answers, f'')

    abbrev seen : Answer × Registry V → Answer × (Text → Option V)
    seen (a, r) = (a, get r)

    built-seen :
        (name : Text) (b : Fallible V) (r : Registry V)
        → file_built name b (get r)
          ≡ seen (let (e, r') = register_built go build with_name name b r in (answer_of e, r'))
    built-seen name (fail e) r = refl
    built-seen name (ok v) r = λ i. (stored, λ key. sym (get-file name v r key) i)

    unregister_if :
        (name : Text) (r : Registry V) (b : Bool)
        → has r name ≡ b
        → (removed b, with_entry name none (get r))
          ≡ seen (unregistered (if b then (true, unfile name r) else (false, r)))
    unregister_if name r true h = λ i. (removed true, λ key. sym (get-unfile name r key) i)
    unregister_if name r false h = λ i. (removed false, λ key. sym (get-absent name r key h) i)

    unregister-seen :
        (name : Text) (r : Registry V)
        → (removed (is_some (get r name)), with_entry name none (get r))
          ≡ seen (unregistered (unregister name r))
    unfolding unregister has
    unregister-seen name r = unregister_if name r (has r name) refl

    call-seen : (c : Call V O) (r : Registry V) → on_function c (get r) ≡ seen (call c r)
    unfolding call put register
    call-seen (register_call name src opts) r =
        built-seen name (build src (opts ++ with_name name ∷ [])) r
    call-seen (put_call name none) r = refl
    call-seen (put_call name (some v)) r = λ i. (stored, λ key. sym (get-file name v r key) i)
    call-seen (unregister_call name) r = unregister-seen name r

    -- Over any sequence of calls that register, put and unregister, from any registry, the answers
    -- of the calls and what Get reads at the end are those of the same calls on a function from
    -- names to validators.
    pub replay-run :
        (cs : List (Call V O)) (r : Registry V)
        → replay cs (get r) ≡ ((run cs r).0, get (run cs r).1)
    unfolding run
    replay-run [] r = refl
    replay-run (c ∷ cs) r =
        ap
          (λ (p : Answer × (Text → Option V)).
            let (answers, f) = replay cs p.1 in (p.0 ∷ answers, f))
          (call-seen c r)
        ∙ ap (λ (p : List Answer × (Text → Option V)). ((call c r).0 ∷ p.0, p.1))
            (replay-run cs (call c r).1)
