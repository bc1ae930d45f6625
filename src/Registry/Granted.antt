-- ===== src/Registry/Granted.antt =====
-- claimComponent of registry.go over sequences of claims: which claims are granted.
use schemix.Prelude.{
  ℕ, Text, ◌≡◌, refl, sym, ap, ◌∙◌, subst, Bool, true, false, ◌&&◌, ◌||◌, not, Option, none, some,
  List, [], ◌∷◌, all, ◌==◌, arith, if◌then◌else◌, Bool-cases, inl, inr,
}
use schemix.Registry.Claims.{
  RegistrationOwner, OwnerMap, owner_of, set_owner, Claim, refusal, first_owner, merged_owner,
  merge_or_refuse, claim_by, claim_component,
}

-- The claims are of different environments, or of one registry and no component twice.
abbrev pub compatible : Claim → Claim → Bool
compatible c g =
    not (c.env == g.env)
    || (c.reg == g.reg
        && not (c.want_methods && g.want_methods)
        && not (c.want_functions && g.want_functions))

-- Each claim is compatible with those granted before it, which stand behind it.
abbrev pub Peaceful : List Claim → Type 0
Peaceful [] = Unit
Peaceful (c ∷ log) = (all (compatible c) log ≡ true) × Peaceful log

abbrev pub submit : Claim → OwnerMap → Option Text × OwnerMap
submit c owners = claim_component (some c.env) c.reg c.want_methods c.want_functions owners

abbrev log_if : Claim → Option Text → List Claim → List Claim
log_if c none log = c ∷ log
log_if c (some e) log = log

-- The claims in their order, with the granted ones, the latest first.
unfoldable pub run_claims : List Claim → OwnerMap → List Claim → OwnerMap × List Claim
unfolding claim_component
run_claims [] owners log = (owners, log)
run_claims (c ∷ cs) owners log =
    let (answer, owners') = submit c owners in run_claims cs owners' (log_if c answer log)

abbrev pub granted : Option Text → Bool
granted none = true
granted (some e) = false

-- The owner that the log gives an environment.
abbrev added : Claim → Option RegistrationOwner → RegistrationOwner
added g none = first_owner g
added g (some o) = merged_owner g o

owner_in : ℕ → List Claim → Option RegistrationOwner
owner_in env [] = none
owner_in env (g ∷ log) =
    let rest = owner_in env log in if g.env == env then some (added g rest) else rest

abbrev permits : Claim → Option RegistrationOwner → Bool
permits c none = true
permits c (some o) = granted (refusal c o)

abbrev same_registry : ℕ → Option RegistrationOwner → Bool
same_registry reg none = true
same_registry reg (some o) = o.registry == reg

permits-added :
    (c g : Claim) (o : Option RegistrationOwner)
    → same_registry g.reg o ≡ true
    → c.env ≡ g.env
    → permits c (some (added g o)) ≡ (compatible c g && permits c o)
permits-added c g none h e = ground arith
permits-added c g (some o) h e = ground arith

permits-same_registry :
    (c : Claim) (o : Option RegistrationOwner) → permits c o ≡ true → same_registry c.reg o ≡ true
permits-same_registry c none h = refl
permits-same_registry c (some o) h = ground arith

compatible_apart : (c g : Claim) → (g.env == c.env) ≡ false → compatible c g ≡ true
compatible_apart c g e = ground arith

if_both {ℓ} :
    {A : Type ℓ} (b : Bool) {x x' y y' : A}
    → (b ≡ true → x ≡ x')
    → (b ≡ false → y ≡ y')
    → (if b then x else y) ≡ (if b then x' else y')
if_both true h k = h refl
if_both false h k = k refl

env_eq : (a b : ℕ) → (a == b) ≡ true → a ≡ b
env_eq a b h = ground arith

-- A claim agrees with the owner of its environment exactly when it is compatible with all that
-- were granted.
permits-owner_in :
    (c : Claim) (log : List Claim)
    → Peaceful log
    → permits c (owner_in c.env log) ≡ all (compatible c) log
unfolding owner_in
permits-owner_in c [] h = refl
permits-owner_in c (g ∷ log) (p, h) = elim (Bool-cases (g.env == c.env)) [
  | inl e ↦
      let here = env_eq g.env c.env e in
      let same = permits-same_registry g (owner_in g.env log) (permits-owner_in g log h ∙ p) in
      ap
        (λ (b : Bool).
          permits c (if b then some (added g (owner_in c.env log)) else owner_in c.env log))
        e
      ∙ permits-added c g (owner_in c.env log)
          (subst (λ env. same_registry g.reg (owner_in env log) ≡ true) here same) (sym here)
      ∙ ap (λ b. compatible c g && b) (permits-owner_in c log h)
  | inr e ↦
      ap
        (λ (b : Bool).
          permits c (if b then some (added g (owner_in c.env log)) else owner_in c.env log))
        e
      ∙ permits-owner_in c log h
      ∙ ap (λ b. b && all (compatible c) log) (sym (compatible_apart c g e))
]

-- The map and the log say the same of every environment.
abbrev Tracks : OwnerMap → List Claim → Type 0
Tracks owners log = (env : ℕ) → owner_of env owners ≡ owner_in env log

owner_of-set_owner :
    (e env : ℕ) (o : RegistrationOwner) (owners : OwnerMap)
    → owner_of e (set_owner env o owners) ≡ (if env == e then some o else owner_of e owners)
unfolding owner_of set_owner
owner_of-set_owner e env o [] = refl
owner_of-set_owner e env o ((f, p) ∷ owners) = ground (arith, owner_of-set_owner e env o owners)

-- What a claim leaves, by the owner that it finds.
abbrev Sound : Claim → List Claim → Option Text × OwnerMap → Type 0
Sound c log (answer, owners) =
    Tracks owners (log_if c answer log) × (granted answer ≡ permits c (owner_in c.env log))

set_owner-Tracks :
    (c : Claim) (owners : OwnerMap) (log : List Claim)
    → Tracks owners log
    → Tracks (set_owner c.env (added c (owner_in c.env log)) owners) (c ∷ log)
unfolding owner_in
set_owner-Tracks c owners log h env =
    owner_of-set_owner env c.env (added c (owner_in c.env log)) owners
    ∙ if_both (c.env == env) (λ e. ap (λ x. some (added c (owner_in x log))) (env_eq c.env env e))
        (λ _. h env)

merge_or_refuse-Sound :
    (c : Claim) (owners : OwnerMap) (log : List Claim) (o : RegistrationOwner)
    (answer : Option Text)
    → Tracks owners log
    → some o ≡ owner_in c.env log
    → answer ≡ refusal c o
    → Sound c log (merge_or_refuse c o answer owners)
merge_or_refuse-Sound c owners log o none h e a = (
  subst (λ q. Tracks (set_owner c.env (added c q) owners) (c ∷ log)) (sym e)
      (set_owner-Tracks c owners log h),
  ap granted a ∙ ap (permits c) e,
)
merge_or_refuse-Sound c owners log o (some message) h e a = (h, ap granted a ∙ ap (permits c) e)

claim_by-Sound :
    (c : Claim) (owners : OwnerMap) (log : List Claim) (o : Option RegistrationOwner)
    → Tracks owners log
    → o ≡ owner_in c.env log
    → Sound c log (claim_by c o owners)
claim_by-Sound c owners log none h e = (
  subst (λ q. Tracks (set_owner c.env (added c q) owners) (c ∷ log)) (sym e)
      (set_owner-Tracks c owners log h),
  ap (permits c) e,
)
claim_by-Sound c owners log (some o) h e =
    merge_or_refuse-Sound c owners log o (refusal c o) h e refl

submit-Sound :
    (c : Claim) (owners : OwnerMap) (log : List Claim)
    → Tracks owners log
    → Sound c log (submit c owners)
unfolding claim_component
submit-Sound c owners log h = claim_by-Sound c owners log (owner_of c.env owners) h (h c.env)

log_if-Peaceful :
    (c : Claim) (answer : Option Text) (log : List Claim)
    → Peaceful log
    → granted answer ≡ all (compatible c) log
    → Peaceful (log_if c answer log)
log_if-Peaceful c none log h e = (sym e, h)
log_if-Peaceful c (some message) log h e = h

run_claims-Peaceful :
    (cs : List Claim) (owners : OwnerMap) (log : List Claim)
    → Tracks owners log
    → Peaceful log
    → let (owners', log') = run_claims cs owners log in Tracks owners' log' × Peaceful log'
unfolding run_claims
run_claims-Peaceful [] owners log h k = (h, k)
run_claims-Peaceful (c ∷ cs) owners log h k =
    let (answer, owners') = submit c owners in
    let (h', e) = submit-Sound c owners log h in
    run_claims-Peaceful cs owners' (log_if c answer log) h'
      (log_if-Peaceful c answer log k (e ∙ permits-owner_in c log k))

-- After any sequence of claims, the granted claims of one environment are all of one registry and
-- claim no component twice; and a further claim is granted exactly when it keeps that so.
pub run_claims-granted :
    (cs : List Claim) (c : Claim)
    → let (owners, log) = run_claims cs [] [] in
      Peaceful log × (granted (submit c owners).0 ≡ all (compatible c) log)
unfolding owner_of owner_in
run_claims-granted cs c =
    let (owners, log) = run_claims cs [] [] in
    let (h, k) = run_claims-Peaceful cs [] [] (λ _. refl) tt in
    let (_, e) = submit-Sound c owners log h in (k, e ∙ permits-owner_in c log k)
