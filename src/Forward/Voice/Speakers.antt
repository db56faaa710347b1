-- ===== src/Forward/Voice/Speakers.antt =====
-- The fence of a voice connection and its idle speakers (internal/discord/audio_forward.go and
-- audio_speakers.go).
use autostream_discord_bot.Base.{
  ℕ, ◌+◌, ◌<◌, ◌≤◌, String, Bool, true, false, not, ◌&&◌, ◌≡◌, refl, ap, ◌∙◌, ◌⊎◌, inl, inr, none,
  some, List, [], ◌∷◌, arith, any, str_eq, str_eq_refl, eq_iff, is_empty, is_some, trim, lookup,
  has_key, keep, IsMap, lookup-keep, lookup-kept, lookup-keep_was, Bool-cases, Option-cases,
}
use autostream_discord_bot.Types.{VoiceJob}
use autostream_discord_bot.Forward.Voice.{
  VoiceState, Told, is_current_voice_job, set_forward_error_for_job,
  record_forward_queue_drop_for_job, record_forward_result, record_audio_packet_received,
  record_audio_speaker_activity, expire_idle_audio_speakers, dispatch_active_speaker_state,
  dispatch_stops, is_idle,
}

-- The sink is told that the user has stopped.
abbrev pub told_stop : String → Told → Bool
told_stop user told = any (λ e. str_eq e.0 user && not e.1) told

module _ (c : VoiceState) (job : VoiceJob) (generation : ℕ) where
  -- A goroutine of an earlier connection changes nothing and tells nothing.
  stale-unchanged :
      (caption ok : Bool) (count now : ℕ) (user : String) (others : VoiceState → VoiceState)
      → is_current_voice_job c job generation ≡ false
      → (record_forward_result c job generation caption count ok ≡ c)
        × (record_forward_queue_drop_for_job c job generation caption count ≡ c)
        × (record_audio_packet_received c job generation ≡ (c, false))
        × (record_audio_speaker_activity c job generation user now others ≡ (c, []))
        × (expire_idle_audio_speakers c job generation now others ≡ (c, []))
  unfolding record_forward_result set_forward_error_for_job record_forward_queue_drop_for_job
      record_audio_packet_received record_audio_speaker_activity expire_idle_audio_speakers
  stale-unchanged caption ok count now user others stale =
      (ground arith, ground arith, ground arith, ground arith, ground arith)

  -- A stop is told of nobody who is a speaker.
  dispatch-cases :
      (user : String)
      → (dispatch_active_speaker_state c job generation user false ≡ [])
        ⊎ (dispatch_active_speaker_state c job generation user false ≡ (trim user, false) ∷ [])
          × (has_key (trim user) c.audio_speakers ≡ false)
  unfolding dispatch_active_speaker_state
  dispatch-cases user = ground arith

  dispatch-tells :
      (user : String)
      → is_current_voice_job c job generation ≡ true
      → is_empty c.job.stream_id ≡ false
      → is_empty (trim user) ≡ false
      → has_key (trim user) c.audio_speakers ≡ false
      → dispatch_active_speaker_state c job generation user false ≡ (trim user, false) ∷ []
  unfolding dispatch_active_speaker_state
  dispatch-tells user current named some_user gone = ground arith

  stops-state : (idle : List (String × ℕ)) → (dispatch_stops c job generation (λ d. d) idle).0 ≡ c
  unfolding dispatch_stops
  stops-state [] = refl
  stops-state ((user, at) ∷ rest) = stops-state rest

  stops-spare :
      (user : String) (idle : List (String × ℕ))
      → has_key user c.audio_speakers ≡ true
      → told_stop user (dispatch_stops c job generation (λ d. d) idle).1 ≡ false
  unfolding dispatch_stops
  stops-spare user [] speaks = refl
  stops-spare user ((other, at) ∷ rest) speaks = elim (dispatch-cases other) [
    | inl quiet ↦ rw quiet (stops-spare user rest speaks)
    | inr (told, gone) ↦
        let differs : str_eq (trim other) user ≡ false =
          ground (arith, eq_iff (trim other) user, gone, speaks) in
        rw (told, differs) (stops-spare user rest speaks)
  ]

  stops-tell :
      (user : String) (at : ℕ) (idle : List (String × ℕ))
      → is_current_voice_job c job generation ≡ true
      → is_empty c.job.stream_id ≡ false
      → trim user ≡ user
      → is_empty user ≡ false
      → has_key user c.audio_speakers ≡ false
      → lookup user idle ≡ some at
      → told_stop user (dispatch_stops c job generation (λ d. d) idle).1 ≡ true
  unfolding dispatch_stops lookup
  stops-tell user at [] current named trimmed some_user gone found = cc
  stops-tell user at ((other, t) ∷ rest) current named trimmed some_user gone found =
      elim (Bool-cases (str_eq other user)) [
        | inl here ↦
            let same : other ≡ user = ground (arith, eq_iff other user) in
            let told = dispatch-tells user current named (rw trimmed some_user) (rw trimmed gone) in
            rw (same, told, trimmed, str_eq_refl user) refl
        | inr there ↦
            let later =
              stops-tell user at rest current named trimmed some_user gone (ground arith) in
            elim (dispatch-cases other) [
              | inl quiet ↦ rw quiet later
              | inr (told, _) ↦ rw told (ground (arith, later))
            ]
      ]

-- When idle speakers are looked for on the current connection of a job with a stream, and nothing
-- else happens meanwhile: a speaker with a trimmed name who was last heard 1.25 seconds ago or
-- earlier is a speaker no more and the sink is told so; any other speaker stays with the same
-- time, and no stop is told of.
pub expire_idle_audio_speakers-exact :
    (c : VoiceState) (job : VoiceJob) (generation now at : ℕ) (user : String)
    → IsMap c.audio_speakers
    → is_current_voice_job c job generation ≡ true
    → is_empty c.job.stream_id ≡ false
    → trim user ≡ user
    → is_empty user ≡ false
    → lookup user c.audio_speakers ≡ some at
    → let (u, told) = expire_idle_audio_speakers c job generation now (λ d. d) in
      (at + 1_250_000_000 ≤ now)
        × (lookup user u.audio_speakers ≡ none)
        × (told_stop user told ≡ true)
      ⊎ (now < at + 1_250_000_000)
        × (lookup user u.audio_speakers ≡ some at)
        × (told_stop user told ≡ false)
unfolding expire_idle_audio_speakers is_current_voice_job
expire_idle_audio_speakers-exact c job generation now at user is_map current named trimmed some_user
      found =
    rw current (elim (Bool-cases (is_idle now (user, at))) [
      | inl idle ↦ inl (
        ground arith,
        ap (λ (d : VoiceState). lookup user d.audio_speakers)
              (stops-state awake job generation silent)
            ∙ gone idle,
        stops-tell awake job generation user at silent current named trimmed some_user
            (ap is_some (gone idle))
            (lookup-kept (is_idle now) user at c.audio_speakers found idle),
      )
      | inr speaks ↦
          let kept =
            lookup-kept (λ e. not (is_idle now e)) user at c.audio_speakers found (ground arith) in
          inr (
            ground arith,
            ap (λ (d : VoiceState). lookup user d.audio_speakers)
                  (stops-state awake job generation silent)
                ∙ kept,
            stops-spare awake job generation user silent (ap is_some kept),
          )
    ])
  where
    silent : List (String × ℕ)
    silent = keep (is_idle now) c.audio_speakers

    awake : VoiceState
    awake = record c { audio_speakers = keep (λ e. not (is_idle now e)) c.audio_speakers }

    gone : is_idle now (user, at) ≡ true → lookup user awake.audio_speakers ≡ none
    gone idle = elim (Option-cases (lookup user awake.audio_speakers)) [
      | inl absent ↦ absent
      | inr (t, still) ↦
          let was =
            lookup-keep_was (λ e. not (is_idle now e)) user t c.audio_speakers is_map still in
          let same : t ≡ at = cc (was, found) in
          let awake_still = lookup-keep (λ e. not (is_idle now e)) user t c.audio_speakers still in
          absurd (ground (arith, same, awake_still))
    ]
