-- ===== src/Http/Token.antt =====
-- The check of a service's token (TokenVerifier in internal/httpapi/server.go).
use Prim.Native.Char.{code}
use autostream_discord_bot.Base.{
  String, Bool, false, not, ◌&&◌, Option, none, some, if◌then◌else◌, ◌==◌, str_eq, is_empty, trim,
  lower_eq,
}

-- `TokenVerifier`.
pub record TokenVerifier : Type 0 where
  pub plain_token : String
  pub sha256_hex : String

-- `strings.CutPrefix`.
unfoldable pub strip_prefix : String → String → Option String
strip_prefix String.[] s = some s
strip_prefix (String.◌∷◌ c p) String.[] = none
strip_prefix (String.◌∷◌ c p) (String.◌∷◌ d s) =
    let rest = strip_prefix p s in if code c == code d then rest else none

-- The comparison with what the service knows, in this order. `hash` gives the hash in small
-- hexadecimal digits; `runtime_token` is the token of the node's configuration, empty without one.
unfoldable pub knows : TokenVerifier → (String → String) → String → String → Bool
knows v hash runtime_token token =
    if not (is_empty v.sha256_hex)
    then lower_eq v.sha256_hex (hash token)
    else if not (is_empty v.plain_token)
    then str_eq token v.plain_token
    else if not (is_empty runtime_token)
    then str_eq token runtime_token
    else false

-- `Verify` on the header `Authorization`.
unfoldable pub verify : TokenVerifier → (String → String) → String → String → Bool
verify v hash runtime_token header = elim (strip_prefix "Bearer " header) [
  | none ↦ false
  | some rest ↦ not (is_empty (trim rest)) && knows v hash runtime_token (trim rest)
]
