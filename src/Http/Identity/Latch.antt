-- ===== src/Http/Identity/Latch.antt =====
-- A latch against a specification without a state (internal/httpapi/updater_identity.go).
use autostream_discord_bot.Base.{
  String, Bool, true, false, not, ◌&&◌, ◌≡◌, refl, sym, ap, Option, none, some, List, [], ◌∷◌, map,
  if◌then◌else◌, if_case, str_eq, str_eq_refl, is_empty, trim, arith, subst, ◌∙◌, inl, inr,
  Bool-cases,
}
use autostream_discord_bot.Control
use autostream_discord_bot.Http.Identity.{
  UpdaterIdentity, UpdaterIdentityLatch, IdentityError, Resolved, resolved, unresolved, Env,
  same_identity, bind_identity, bind, candidate_of, resolve_from_env, resolve_all, new_latch,
}

abbrev pub answered : Resolved → Option UpdaterIdentity
answered (resolved id) = some id
answered (unresolved e) = none

-- An environment with a complete configuration, for a service of this type.
abbrev pub usable : String → Env → Bool
usable kind env =
    str_eq kind Control.service_type
    && not env.pending
    && is_empty (trim env.config_error)
    && not (is_empty (trim env.service_id))

abbrev pub first_usable : String → List Env → Option UpdaterIdentity
first_usable kind [] = none
first_usable kind (env ∷ envs) =
    let later = first_usable kind envs in if usable kind env then some (candidate_of env) else later

-- The answer in an environment: the first identity, if it is the identity of the environment.
abbrev pub identity_for : String → Option UpdaterIdentity → Env → Option UpdaterIdentity
identity_for kind none env = none
identity_for kind (some first) env =
    if usable kind env && same_identity first (candidate_of env) then some first else none

-- One call with an identity bound, and one with none.
abbrev Step :
    UpdaterIdentityLatch → Option UpdaterIdentity → Env → UpdaterIdentityLatch × Resolved → Type 0
Step l (some bound) env (next, r) =
    (next.identity ≡ some bound)
    × (next.service_type ≡ l.service_type)
    × (answered r ≡ identity_for l.service_type (some bound) env)
Step l none env (next, r) =
    (next.identity ≡ (if usable l.service_type env then some (candidate_of env) else none))
    × (next.service_type ≡ l.service_type)
    × (answered r ≡ (if usable l.service_type env then some (candidate_of env) else none))

bind_identity-Step :
    (l : UpdaterIdentityLatch) (o : Option UpdaterIdentity) (env : Env)
    → l.identity ≡ o
    → usable l.service_type env ≡ true
    → Step l o env (bind_identity l o (candidate_of env))
unfolding bind_identity
bind_identity-Step l none env h u = rw u (refl, refl, refl)
bind_identity-Step l (some bound) env h u =
    if_case (Step l (some bound) env) (same_identity bound (candidate_of env))
      (λ same. (h, refl, rw (u, same) refl)) (λ drift. (h, refl, rw (u, drift) refl))

unresolved-Step :
    (l : UpdaterIdentityLatch) (o : Option UpdaterIdentity) (env : Env) (e : IdentityError)
    → l.identity ≡ o
    → usable l.service_type env ≡ false
    → Step l o env (l, unresolved e)
unresolved-Step l none env e h u = rw u (h, refl, refl)
unresolved-Step l (some bound) env e h u = (h, refl, rw u refl)

resolve_from_env-Step :
    (l : UpdaterIdentityLatch) (o : Option UpdaterIdentity) (env : Env)
    → l.identity ≡ o
    → Step l o env (resolve_from_env l env)
unfolding resolve_from_env bind
resolve_from_env-Step l o env h =
    if_case Goes (not (str_eq l.service_type Control.service_type))
      (λ k. unresolved-Step l o env _ h (ground arith))
      λ k.
        if_case Goes env.pending (λ p. unresolved-Step l o env _ h (ground arith))
          λ p.
            if_case Goes (not (is_empty (trim env.config_error)))
              (λ c. unresolved-Step l o env _ h (ground arith))
              λ c.
                if_case Goes (is_empty (trim env.service_id))
                  (λ i. unresolved-Step l o env _ h (ground arith))
                  λ i. rw i (
                    subst (λ b. Step l o env (bind_identity l b (candidate_of env))) (sym h)
                      (bind_identity-Step l o env h (ground arith)))
  where
    Goes : UpdaterIdentityLatch × Resolved → Type 0
    Goes = Step l o env

same_identity_refl : (a : UpdaterIdentity) → same_identity a a ≡ true
unfolding same_identity
same_identity_refl a = ground (arith, str_eq_refl a.service_id, str_eq_refl a.service_type)

unusable :
    (kind : String) (o : Option UpdaterIdentity) (env : Env)
    → usable kind env ≡ false
    → identity_for kind o env ≡ none
unusable kind none env u = refl
unusable kind (some first) env u = rw u refl

identity_for-own :
    (kind : String) (env : Env)
    → usable kind env ≡ true
    → identity_for kind (some (candidate_of env)) env ≡ some (candidate_of env)
identity_for-own kind env u = rw (u, same_identity_refl (candidate_of env)) refl

if_true :
    {b : Bool} {x : Option UpdaterIdentity} (y : Option UpdaterIdentity)
    → b ≡ true
    → (if b then x else y) ≡ x
if_true y h = rw h refl

if_false :
    {b : Bool} {y : Option UpdaterIdentity} (x : Option UpdaterIdentity)
    → b ≡ false
    → (if b then x else y) ≡ y
if_false x h = rw h refl

cons_eq :
    {a b : Option UpdaterIdentity} {s t : List (Option UpdaterIdentity)}
    → a ≡ b
    → s ≡ t
    → a ∷ s ≡ b ∷ t
cons_eq p q = λ i. p i ∷ q i

resolve_all-bound :
    (l : UpdaterIdentityLatch) (bound : UpdaterIdentity) (envs : List Env)
    → l.identity ≡ some bound
    → map answered (resolve_all l envs) ≡ map (identity_for l.service_type (some bound)) envs
unfolding resolve_all
resolve_all-bound l bound [] h = refl
resolve_all-bound l bound (env ∷ envs) h =
    let (next, kind, answer) = resolve_from_env-Step l (some bound) env h in
    cons_eq answer (
      resolve_all-bound (resolve_from_env l env).0 bound envs next
      ∙ ap (λ k. map (identity_for k (some bound)) envs) kind)

-- The first call that finds a usable environment binds; those before it answer with nothing.
resolve_all-free :
    (l : UpdaterIdentityLatch) (envs : List Env)
    → l.identity ≡ none
    → map answered (resolve_all l envs)
      ≡ map (identity_for l.service_type (first_usable l.service_type envs)) envs
unfolding resolve_all
resolve_all-free l [] h = refl
resolve_all-free l (env ∷ envs) h =
    let (next, kind, answer) = resolve_from_env-Step l none env h in
    let first = first_usable l.service_type envs in
    elim (Bool-cases (usable l.service_type env)) [
      | inl u ↦
          cons_eq (answer ∙ if_true _ u ∙ sym (identity_for-own l.service_type env u)) (
            resolve_all-bound (resolve_from_env l env).0 (candidate_of env) envs
              (next ∙ if_true _ u)
            ∙ ap (λ k. map (identity_for k (some (candidate_of env))) envs) kind)
          ∙ ap (λ o. map (identity_for l.service_type o) (env ∷ envs)) (sym (if_true _ u))
      | inr u ↦
          cons_eq (answer ∙ if_false _ u ∙ sym (unusable l.service_type first env u)) (
            resolve_all-free (resolve_from_env l env).0 envs (next ∙ if_false _ u)
            ∙ ap (λ k. map (identity_for k (first_usable k envs)) envs) kind)
          ∙ ap (λ o. map (identity_for l.service_type o) (env ∷ envs)) (sym (if_false _ u))
    ]

-- Of any sequence of resolutions of a new latch, each with its own environment, each gives the
-- identity of the first environment that is complete for a service of this type, if its own
-- environment is complete and has that identity, and an error otherwise.
pub resolve_all-map :
    (kind : String) (envs : List Env)
    → map answered (resolve_all (new_latch kind) envs)
      ≡ map (identity_for (trim kind) (first_usable (trim kind) envs)) envs
unfolding new_latch
resolve_all-map kind envs = resolve_all-free (new_latch kind) envs refl
