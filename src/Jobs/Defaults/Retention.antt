-- ===== src/Jobs/Defaults/Retention.antt =====
-- What a new configuration keeps (`SetStreamVoiceDefaults` in internal/jobs/voice_defaults.go).
use autostream_discord_bot.Base.{
  lookup-keep, lookup-kept, lookup-keep_was, keep, any, ℕ, ◌==◌, ◌++◌, ◌⊎◌, Option-cases, eq_iff,
  str_eq, Bool-cases, inl, inr, String, true, false, not, ◌≡◌, some, none, List, [], ◌∷◌, arith,
  is_empty, trim, lookup, insert, IsMap, insert-IsMap,
}
use autostream_discord_bot.Jobs.{Manager, VoiceDefaults, AutoStartRetry}
use autostream_discord_bot.Jobs.Defaults.{
  accepted, normal, is_backed, is_rearmed, unbacked_ids, set_stream_voice_defaults,
}
use autostream_discord_bot.Jobs.AutoStart.Matching.{Named}

-- The stream waits, may start by itself, and has the epoch that the start was reserved for.
abbrev pub Backed : List (String × VoiceDefaults) → String → AutoStartRetry → Type 0
Backed waiting stream r =
    (d : VoiceDefaults) × (lookup stream waiting ≡ some d)
    × (d.auto_start_enabled ≡ true)
    × (d.assignment_epoch ≡ r.assignment_epoch)

is_backed-Backed :
    (waiting : List (String × VoiceDefaults)) (stream : String) (r : AutoStartRetry)
    → is_backed waiting (stream, r) ≡ true
    → Backed waiting stream r
is_backed-Backed waiting stream r h = elim (Option-cases (lookup stream waiting)) [
  | inl absent ↦ ground (arith, absent)
  | inr (d, found) ↦ (
    d,
    found,
    ground (arith, found),
    ground (arith, found, eq_iff d.assignment_epoch r.assignment_epoch),
  )
]

-- The context of a start that is not kept is cancelled.
unbacked_ids-has :
    (waiting : List (String × VoiceDefaults)) (stream : String) (r : AutoStartRetry)
    (retries : List (String × AutoStartRetry)) (more : List ℕ)
    → lookup stream retries ≡ some r
    → is_backed waiting (stream, r) ≡ false
    → any (λ i. i == r.id) (unbacked_ids waiting retries ++ more) ≡ true
unfolding lookup
unbacked_ids-has waiting stream r [] more found h = cc
unbacked_ids-has waiting stream r ((k, x) ∷ rest) more found h =
    elim (Bool-cases (str_eq k stream)) [
      | inl here ↦
          let same_key : k ≡ stream = ground (arith, eq_iff k stream) in
          let same : x ≡ r = ground arith in rw (same_key, same, h) (ground arith)
      | inr there ↦
          let later = unbacked_ids-has waiting stream r rest more (ground arith) h in
          elim (Bool-cases (is_backed waiting (k, x))) [
            | inl kept ↦ rw kept later
            | inr gone ↦ rw gone (ground (arith, later))
          ]
    ]

-- If the reserved starts are a map, then under a new configuration each of them either stays, and
-- its stream waits, may start by itself and has the epoch that the start was reserved for, or it
-- is gone and its context is cancelled.
pub set_stream_voice_defaults-Backed :
    (m : Manager) (entries : List (String × VoiceDefaults)) (stream : String) (r : AutoStartRetry)
    → IsMap m.auto_start.retries
    → lookup stream m.auto_start.retries ≡ some r
    → let u = (set_stream_voice_defaults m entries).auto_start in
      (lookup stream u.retries ≡ some r) × Backed u.stream_defaults stream r
      ⊎ (lookup stream u.retries ≡ none) × (any (λ i. i == r.id) u.cancelled ≡ true)
unfolding set_stream_voice_defaults
set_stream_voice_defaults-Backed m entries stream r u h =
    let waiting = accepted [] entries in
    elim (Bool-cases (is_backed waiting (stream, r))) [
      | inl kept ↦ inl (
        lookup-kept (is_backed waiting) stream r m.auto_start.retries h kept,
        is_backed-Backed waiting stream r kept,
      )
      | inr gone ↦ inr (
        dropped waiting gone,
        unbacked_ids-has waiting stream r m.auto_start.retries m.auto_start.cancelled h gone,
      )
    ]
  where
    dropped :
        (waiting : List (String × VoiceDefaults))
        → is_backed waiting (stream, r) ≡ false
        → lookup stream (keep (is_backed waiting) m.auto_start.retries) ≡ none
    dropped waiting gone =
        elim (Option-cases (lookup stream (keep (is_backed waiting) m.auto_start.retries))) [
          | inl absent ↦ absent
          | inr (x, found) ↦
              let was = lookup-keep_was (is_backed waiting) stream x m.auto_start.retries u found in
              let same : x ≡ r = cc (was, h) in
              cc (lookup-keep (is_backed waiting) stream x m.auto_start.retries found, same, gone)
        ]

-- A stream that was stopped stays stopped under a configuration that does not name it.
set_stream_voice_defaults-stopped :
    (m : Manager) (entries : List (String × VoiceDefaults)) (stream : String) (d : VoiceDefaults)
    → lookup stream m.auto_start.stopped ≡ some d
    → lookup stream (set_stream_voice_defaults m entries).auto_start.stream_defaults ≡ none
    → lookup stream (set_stream_voice_defaults m entries).auto_start.stopped ≡ some d
unfolding set_stream_voice_defaults
set_stream_voice_defaults-stopped m entries stream d h absent =
    lookup-kept (λ e. not (is_rearmed (accepted [] entries) e)) stream d m.auto_start.stopped h
      (ground (arith, absent))

insert-Named :
    (k : String) (d : VoiceDefaults) (m : List (String × VoiceDefaults))
    → is_empty k ≡ false
    → Named m
    → Named (insert k d m)
unfolding insert
insert-Named k d [] h n = (h, tt)
insert-Named k d ((j, x) ∷ m) h n = ground (arith, insert-Named k d m h n.1)

accepted-IsMap :
    (acc entries : List (String × VoiceDefaults))
    → IsMap acc
    → Named acc
    → IsMap (accepted acc entries) × Named (accepted acc entries)
unfolding accepted
accepted-IsMap acc [] u n = (u, n)
accepted-IsMap acc ((k, d) ∷ entries) u n = elim (Bool-cases (is_empty (trim k))) [
  | inl blank ↦ rw blank (accepted-IsMap acc entries u n)
  | inr named ↦ rw named (
      accepted-IsMap (insert (trim k) (normal d) acc) entries
        (insert-IsMap (trim k) (normal d) acc u) (insert-Named (trim k) (normal d) acc named n))
]

-- The waiting streams of a configuration are a map, and none has the empty name.
set_stream_voice_defaults-Named :
    (m : Manager) (entries : List (String × VoiceDefaults))
    → IsMap (set_stream_voice_defaults m entries).auto_start.stream_defaults
      × Named (set_stream_voice_defaults m entries).auto_start.stream_defaults
unfolding set_stream_voice_defaults
set_stream_voice_defaults-Named m entries = accepted-IsMap [] entries tt tt
