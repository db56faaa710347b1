-- ===== src/Http/Identity.antt =====
-- The identity that the updater sees (internal/httpapi/updater_identity.go): a latch that takes the
-- first identity of the node's configuration and refuses any other.
pub mod Latch
use autostream_discord_bot.Base.{
  ℕ, String, Bool, true, false, not, ◌&&◌, Option, none, some, List, [], ◌∷◌, if◌then◌else◌, ◌==◌,
  str_eq, is_empty, trim,
}
use autostream_discord_bot.Control.{service_type}

pub record UpdaterIdentity : Type 0 where
  pub service_id : String
  pub service_type : String
  pub config_revision : ℕ

pub record UpdaterIdentityLatch : Type 0 where
  pub service_type : String
  pub identity : Option UpdaterIdentity

unfoldable pub new_latch : String → UpdaterIdentityLatch
new_latch kind = record { service_type = trim kind; identity = none }

pub data IdentityError : Type 0 where
  wrong_service_type config_invalid service_id_required : IdentityError
  identity_pending identity_drift : IdentityError

pub data Resolved : Type 0 where
  resolved : UpdaterIdentity → Resolved
  unresolved : IdentityError → Resolved

-- What the environment gives: whether the node's configuration is still to come, and what
-- `ConfigFromEnv` reads of it.
pub record Env : Type 0 where
  pub pending : Bool
  pub config_error : String
  pub service_id : String
  pub config_revision : ℕ

unfoldable pub same_identity : UpdaterIdentity → UpdaterIdentity → Bool
same_identity a b =
    str_eq a.service_id b.service_id
    && str_eq a.service_type b.service_type
    && a.config_revision == b.config_revision

unfoldable pub bind_identity :
    UpdaterIdentityLatch
    → Option UpdaterIdentity
    → UpdaterIdentity
    → UpdaterIdentityLatch × Resolved
bind_identity l none candidate = (record l { identity = some candidate }, resolved candidate)
bind_identity l (some bound) candidate =
    if same_identity bound candidate then (l, resolved bound) else (l, unresolved identity_drift)

-- `bind`.
unfoldable pub bind : UpdaterIdentityLatch → UpdaterIdentity → UpdaterIdentityLatch × Resolved
bind l candidate =
    if is_empty candidate.service_id
    then (l, unresolved service_id_required)
    else bind_identity l l.identity candidate

abbrev pub pending_error : Option UpdaterIdentity → IdentityError
pending_error none = identity_pending
pending_error (some bound) = identity_drift

abbrev pub candidate_of : Env → UpdaterIdentity
candidate_of env = record {
  service_id = trim env.service_id;
  service_type = service_type;
  config_revision = env.config_revision;
}

-- `ResolveFromEnv`.
unfoldable pub resolve_from_env : UpdaterIdentityLatch → Env → UpdaterIdentityLatch × Resolved
resolve_from_env l env =
    if not (str_eq l.service_type service_type)
    then (l, unresolved wrong_service_type)
    else if env.pending
    then (l, unresolved (pending_error l.identity))
    else if not (is_empty (trim env.config_error))
    then (l, unresolved config_invalid)
    else if is_empty (trim env.service_id)
    then (l, unresolved identity_pending)
    else bind l (candidate_of env)

-- A process asks again and again, each time with the environment of the moment.
unfoldable pub resolve_all : UpdaterIdentityLatch → List Env → List Resolved
resolve_all l [] = []
resolve_all l (env ∷ rest) =
    (resolve_from_env l env).1 ∷ resolve_all (resolve_from_env l env).0 rest
