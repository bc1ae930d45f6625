-- ===== src/Registry/Claims.antt =====
-- registrationOwner and claimComponent of registry.go: which registry has registered its plugins on
-- an environment of Bloblang. Pointers are numbers; the lock makes every claim one step.
use schemix.Prelude.{
  ℕ, Text, text, Bool, true, ◌&&◌, not, Option, none, some, List, [], ◌∷◌, ◌==◌, if◌then◌else◌,
}

-- `*Registry`, by identity
pub record RegistrationOwner : Type 0 where
  pub registry : ℕ
  pub methods : Bool
  pub functions : Bool

-- `map[*bloblang.Environment]*registrationOwner`
abbrev pub OwnerMap : Type 0
OwnerMap = List (ℕ × RegistrationOwner)

unfoldable pub owner_of : ℕ → OwnerMap → Option RegistrationOwner
owner_of env [] = none
owner_of env ((e, o) ∷ owners) = if e == env then some o else owner_of env owners

unfoldable pub set_owner : ℕ → RegistrationOwner → OwnerMap → OwnerMap
set_owner env o [] = (env, o) ∷ []
set_owner env o ((e, p) ∷ owners) =
    if e == env then (e, o) ∷ owners else (e, p) ∷ set_owner env o owners

-- delete(ownerMap, env)
unfoldable pub release_env : ℕ → OwnerMap → OwnerMap
release_env env [] = []
release_env env ((e, p) ∷ owners) =
    let rest = release_env env owners in if e == env then rest else (e, p) ∷ rest

-- `claimComponent(env, reg, wantMethods, wantFunctions)` on an environment that is not nil
pub record Claim : Type 0 where
  pub env : ℕ
  pub reg : ℕ
  pub want_methods : Bool
  pub want_functions : Bool

abbrev pub owned_elsewhere : Text
owned_elsewhere = text "schemix: bloblang environment already owned by another Registry"

abbrev pub methods_twice : Text
methods_twice = text "schemix: methods already registered on this environment by this Registry"

abbrev pub functions_twice : Text
functions_twice = text "schemix: functions already registered on this environment by this Registry"

abbrev pub nil_environment : Text
nil_environment = text "schemix: bloblang environment must not be nil"

abbrev pub refusal : Claim → RegistrationOwner → Option Text
refusal c existing =
    if not (existing.registry == c.reg)
    then some owned_elsewhere
    else if c.want_methods && existing.methods
    then some methods_twice
    else if c.want_functions && existing.functions
    then some functions_twice
    else none

abbrev pub first_owner : Claim → RegistrationOwner
first_owner c = record { registry = c.reg; methods = c.want_methods; functions = c.want_functions }

-- `if wantMethods { existing.methods = true }`, and the same for functions
abbrev pub merged_owner : Claim → RegistrationOwner → RegistrationOwner
merged_owner c o = record o {
  methods = if c.want_methods then true else o.methods;
  functions = if c.want_functions then true else o.functions;
}

abbrev pub merge_or_refuse :
    Claim → RegistrationOwner → Option Text → OwnerMap → Option Text × OwnerMap
merge_or_refuse c o (some e) owners = (some e, owners)
merge_or_refuse c o none owners = (none, set_owner c.env (merged_owner c o) owners)

abbrev pub claim_by : Claim → Option RegistrationOwner → OwnerMap → Option Text × OwnerMap
claim_by c none owners = (none, set_owner c.env (first_owner c) owners)
claim_by c (some existing) owners = merge_or_refuse c existing (refusal c existing) owners

-- The first part is the error, if there is one. The nil environment is `none`.
unfoldable pub claim_component : Option ℕ → ℕ → Bool → Bool → OwnerMap → Option Text × OwnerMap
unfolding owner_of set_owner
claim_component none reg methods functions owners = (some nil_environment, owners)
claim_component (some env) reg methods functions owners =
    let c : Claim = record {
      env = env;
      reg = reg;
      want_methods = methods;
      want_functions = functions;
    } in
    claim_by c (owner_of env owners) owners
