-- ===== src/Http/Server/Access.antt =====
-- Who may change the state over HTTP (internal/httpapi/server.go).
use autostream_discord_bot.Base.{
  String, true, false, not, ◌&&◌, ◌≡◌, ◌⊎◌, refl, eq_iff, Option, none, some, arith, is_empty, trim,
  lower_eq,
}
use autostream_discord_bot.Jobs.{Manager}
use autostream_discord_bot.Http.StartJob.{Json}
use autostream_discord_bot.Http.Server.{
  World, authorized, unauthorized, start_job, stop_job, active_speaker,
}
use autostream_discord_bot.Http.Token.{TokenVerifier, verify, knows, strip_prefix}

-- A call without a valid token changes nothing and is refused, whatever it asks for.
handlers-unauthorized :
    (w : World) (json : Json) (m : Manager) (body id : String) (read user : Option String)
    → authorized w ≡ false
    → (start_job w json m read ≡ (m, unauthorized))
      × (stop_job w m id ≡ (m, unauthorized))
      × (active_speaker w m id user ≡ (m, unauthorized))
unfolding start_job stop_job active_speaker
handlers-unauthorized w json m body id read user h = (ground arith, ground arith, ground arith)

-- The token is what the service was given: by its hash if it was given one, else as it is, else the
-- token of the node.
abbrev pub Matches : TokenVerifier → (String → String) → String → String → Type 0
Matches v hash runtime_token token =
    (is_empty v.sha256_hex ≡ false) × (lower_eq v.sha256_hex (hash token) ≡ true)
    ⊎ (is_empty v.sha256_hex ≡ true) × (is_empty v.plain_token ≡ false) × (token ≡ v.plain_token)
    ⊎ (is_empty v.sha256_hex ≡ true)
      × (is_empty v.plain_token ≡ true)
      × (is_empty runtime_token ≡ false)
      × (token ≡ runtime_token)

knows-Matches :
    (v : TokenVerifier) (hash : String → String) (runtime_token token : String)
    → knows v hash runtime_token token ≡ true
    → Matches v hash runtime_token token
unfolding knows
knows-Matches v hash runtime_token token h =
    ground (arith, eq_iff token v.plain_token, eq_iff token runtime_token)

verify-Matches :
    (v : TokenVerifier) (hash : String → String) (runtime_token header : String)
    → verify v hash runtime_token header ≡ true
    → (rest : String) × (strip_prefix "Bearer " header ≡ some rest)
      × (is_empty (trim rest) ≡ false)
      × Matches v hash runtime_token (trim rest)
unfolding verify
verify-Matches v hash runtime_token header h = found (strip_prefix "Bearer " header) refl h
  where
    found :
        (o : Option String)
        → strip_prefix "Bearer " header ≡ o
        → elim o [
          | none ↦ false
          | some rest ↦ not (is_empty (trim rest)) && knows v hash runtime_token (trim rest)
        ]
          ≡ true
        → (rest : String) × (strip_prefix "Bearer " header ≡ some rest)
          × (is_empty (trim rest) ≡ false)
          × Matches v hash runtime_token (trim rest)
    found none e x = cc x
    found (some rest) e x =
        (rest, e, ground arith, knows-Matches v hash runtime_token (trim rest) (ground arith))
