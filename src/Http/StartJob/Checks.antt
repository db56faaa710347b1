-- ===== src/Http/StartJob/Checks.antt =====
-- What an accepted request for a job has passed (`decodeStartJobRequest` in
-- internal/httpapi/start_job_request.go).
use autostream_discord_bot.Base.{
  ℕ, ◌≤◌, ◌<◌, String, true, not, ◌||◌, ◌≡◌, refl, ◌⊎◌, inl, Option, none, some, arith, if_case,
  ◌==◌, str_eq, trim,
}
use autostream_discord_bot.Types.{VoiceJob}
use autostream_discord_bot.Http.StartJob.{
  Json, legacy, resolved_target_v2, Decoded, accepted, rejected, V2StartJobRequest,
  LegacyStartJobRequest, ℤ, pos, negsuc, Rest, at_end, another_value, broken, valid_discord_id,
  valid_target, within, or_zero, to_count, caption_tuning_valid, v2_voice_job, legacy_voice_job,
  accept_v2, accept_legacy, decode_strict, decode_version, decode_envelope, decode_body,
  decode_start_job_request, read_body,
}

-- The numbers of a v2 job: 0 where the request has none, else within their bounds.
pub record IsResolved (job : VoiceJob) : Type 0 where
  pub revision : 0 < job.discord_target_revision
  pub guild : valid_discord_id job.guild_id ≡ true
  pub text : valid_discord_id job.text_channel_id ≡ true
  pub voice : valid_discord_id job.voice_channel_id ≡ true
  pub flush :
      (job.caption_audio_flush_ms ≡ 0)
      ⊎ (10 ≤ job.caption_audio_flush_ms) × (job.caption_audio_flush_ms ≤ 1000)
  pub batch :
      (job.caption_audio_max_batch_packets ≡ 0)
      ⊎ (1 ≤ job.caption_audio_max_batch_packets) × (job.caption_audio_max_batch_packets ≤ 100)
  pub window : job.unresolved_ssrc_buffer_ms ≤ 5000

within-or_zero :
    (value : Option ℤ) (minimum maximum : ℕ)
    → within value minimum maximum ≡ true
    → (or_zero value ≡ 0) ⊎ (minimum ≤ or_zero value) × (or_zero value ≤ maximum)
unfolding within or_zero to_count
within-or_zero none minimum maximum h = inl refl
within-or_zero (some (pos n)) minimum maximum h = ground arith
within-or_zero (some (negsuc n)) minimum maximum h = cc h

v2_voice_job-IsResolved :
    (r : V2StartJobRequest)
    → valid_target r.discord_target ≡ true
    → caption_tuning_valid r ≡ true
    → IsResolved (v2_voice_job r)
unfolding v2_voice_job valid_target caption_tuning_valid
v2_voice_job-IsResolved r t c = record {
  revision = ground arith;
  guild = ground arith;
  text = ground arith;
  voice = ground arith;
  flush = within-or_zero r.caption_audio_flush_ms 10 1000 (ground arith);
  batch = within-or_zero r.caption_audio_max_batch_packets 1 100 (ground arith);
  window = ground (arith, within-or_zero r.unresolved_ssrc_buffer_ms 0 5000 (ground arith));
}

-- What an accepted request has passed, by its mode.
abbrev pub IsChecked : Json → Option String → Decoded → Type 0
IsChecked json body (rejected e mode) = Unit
IsChecked json body (accepted job legacy) =
    (text : String) × (read_body body ≡ some text)
    × (json.envelope text ≡ some none)
    × (r : LegacyStartJobRequest) × (json.as_legacy text ≡ some (r, at_end))
    × (job ≡ legacy_voice_job r)
IsChecked json body (accepted job resolved_target_v2) =
    (text : String) × (read_body body ≡ some text)
    × (r : V2StartJobRequest) × (json.as_v2 text ≡ some (r, at_end))
    × (job ≡ v2_voice_job r)
    × IsResolved job

decode_strict-end :
    {A : Type 0} (o : Option (A × Rest)) (a : A) → decode_strict o ≡ some a → o ≡ some (a, at_end)
unfolding decode_strict
decode_strict-end none a h = cc h
decode_strict-end (some (b, at_end)) a h = ground arith
decode_strict-end (some (b, another_value)) a h = cc h
decode_strict-end (some (b, broken)) a h = cc h

module _ (json : Json) (body : Option String) (text : String)
    (got : read_body body ≡ some text) where
  accept_legacy-IsChecked :
      (o : Option LegacyStartJobRequest)
      → decode_strict (json.as_legacy text) ≡ o
      → json.envelope text ≡ some none
      → IsChecked json body (accept_legacy o)
  unfolding accept_legacy
  accept_legacy-IsChecked none e v = tt
  accept_legacy-IsChecked (some r) e v =
      (text, got, v, r, decode_strict-end (json.as_legacy text) r e, refl)

  accept_v2-IsChecked :
      (o : Option V2StartJobRequest)
      → decode_strict (json.as_v2 text) ≡ o
      → IsChecked json body (accept_v2 o)
  unfolding accept_v2
  accept_v2-IsChecked none e = tt
  accept_v2-IsChecked (some r) e =
      if_case (IsChecked json body)
        (not (r.schema_version == 2) || not (valid_target r.discord_target)) (λ bad. tt)
        λ target.
          if_case (IsChecked json body) (not (caption_tuning_valid r)) (λ bad. tt)
            λ tuned. (
              text,
              got,
              r,
              decode_strict-end (json.as_v2 text) r e,
              refl,
              v2_voice_job-IsResolved r (ground arith) (ground arith),
            )

  decode_version-IsChecked : (o : Option ℕ) → IsChecked json body (decode_version json text o)
  unfolding decode_version
  decode_version-IsChecked none = tt
  decode_version-IsChecked (some version) =
      if_case (IsChecked json body) (not (version == 2)) (λ bad. tt)
        λ good. accept_v2-IsChecked (decode_strict (json.as_v2 text)) refl

  decode_envelope-IsChecked :
      (o : Option (Option String))
      → json.envelope text ≡ o
      → IsChecked json body (decode_envelope json text o)
  unfolding decode_envelope
  decode_envelope-IsChecked none e = tt
  decode_envelope-IsChecked (some none) e =
      accept_legacy-IsChecked (decode_strict (json.as_legacy text)) refl e
  decode_envelope-IsChecked (some (some raw)) e =
      if_case (IsChecked json body) (str_eq (trim raw) "null") (λ bad. tt)
        λ good. decode_version-IsChecked (json.version raw)

decode_body-IsChecked :
    (json : Json) (body o : Option String)
    → read_body body ≡ o
    → IsChecked json body (decode_body json o)
unfolding decode_body
decode_body-IsChecked json body none e = tt
decode_body-IsChecked json body (some text) e =
    decode_envelope-IsChecked json body text e (json.envelope text) refl

pub decode_start_job_request-IsChecked :
    (json : Json) (body : Option String) → IsChecked json body (decode_start_job_request json body)
unfolding decode_start_job_request
decode_start_job_request-IsChecked json body = decode_body-IsChecked json body (read_body body) refl
