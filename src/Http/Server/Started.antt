-- ===== src/Http/Server/Started.antt =====
-- A request that starts a job, from its body to the state of the manager: internal/httpapi/server.go
-- (startJob, applyRuntimeDiscordConfig) over internal/jobs/manager.go (Start).
use autostream_discord_bot.Base.{
  String, Bool, true, false, not, ◌&&◌, ◌≡◌, refl, ap, sym, ◌∙◌, subst, ◌⊎◌, inl, inr, Option, none,
  some, List, arith, if_case, ◌==◌, str_eq, is_empty, trim,
}
use autostream_discord_bot.Types.{VoiceJob}
use autostream_discord_bot.Control.{RuntimeConfig, StreamDiscordConfig, discord_config_for_stream}
use autostream_discord_bot.Jobs
use autostream_discord_bot.Jobs.{Manager}
use autostream_discord_bot.Jobs.Defaults.{apply_voice_defaults}
use autostream_discord_bot.Jobs.Roster.{Task}
use autostream_discord_bot.Jobs.Lifecycle.{start, refuse_start}
use autostream_discord_bot.Jobs.Lifecycle.Outcome.{start-current}
use autostream_discord_bot.Http.{Reply}
use autostream_discord_bot.Http.StartJob.{
  Json, Mode, legacy, resolved_target_v2, Decoded, accepted, rejected, decode_start_job_request,
}
use autostream_discord_bot.Http.StartJob.Checks.{
  IsResolved, IsChecked, decode_start_job_request-IsChecked,
}
use autostream_discord_bot.Http.Server.{
  World, Provider, unset, fetch_fails, gives, RuntimeError, authorized, start_job, start_decoded,
  start_configured, start_reply, apply_runtime_discord_config, use_config, resolve_target,
  fill_targets, write_error, error_text, is_primary_discord_assignment, not_assigned, fetch_failed,
  gateway_failed,
}
use autostream_discord_bot.Http.Server.Target.{valid_discord_id-trim, apply_voice_defaults-id}

-- The reply of an error is none of success.
pub write_error-ne : (text : String) → (write_error text).status == 202 ≡ false
unfolding write_error
write_error-ne text = ground arith

-- The stream of the job is a primary assignment of this bot, where there is a provider.
abbrev pub IsAssigned : Provider → Bool → String → Type 0
IsAssigned unset reconciled stream = Unit
IsAssigned fetch_fails reconciled stream = ⊥
IsAssigned (gives cfg) reconciled stream =
    (is_primary_discord_assignment cfg stream ≡ true) × (reconciled ≡ true)

-- What the manager starts is the job of a v2 request, or a job of the stream of a legacy one.
abbrev pub IsKept : Mode → VoiceJob → VoiceJob → Type 0
IsKept resolved_target_v2 job used = used ≡ job
IsKept legacy job used = used.stream_id ≡ job.stream_id

abbrev Applied :
    VoiceJob → Mode → Provider → Bool → Manager × VoiceJob × Option RuntimeError → Type 0
Applied job mode provider reconciled (m, used, some e) = Unit
Applied job mode provider reconciled (m, used, none) =
    IsKept mode job used
    × ((is_empty (trim job.stream_id) ≡ true) ⊎ IsAssigned provider reconciled job.stream_id)

IsKept-refl : (mode : Mode) (job : VoiceJob) → IsKept mode job job
IsKept-refl resolved_target_v2 job = refl
IsKept-refl legacy job = refl

fill_targets-stream :
    (job : VoiceJob) (o : Option StreamDiscordConfig)
    → (fill_targets job o).stream_id ≡ job.stream_id
unfolding fill_targets
fill_targets-stream job none = refl
fill_targets-stream job (some c) = refl

resolve_target-IsKept :
    (job : VoiceJob) (mode : Mode) (cfg : RuntimeConfig)
    → IsKept mode job (resolve_target job mode cfg)
unfolding resolve_target
resolve_target-IsKept job resolved_target_v2 cfg = refl
resolve_target-IsKept job legacy cfg =
    fill_targets-stream job (discord_config_for_stream cfg job.stream_id)

use_config-Applied :
    (m : Manager) (job : VoiceJob) (mode : Mode) (cfg : RuntimeConfig) (reconciled : Bool)
    → Applied job mode (gives cfg) reconciled (use_config m job mode cfg reconciled)
unfolding use_config
use_config-Applied m job mode cfg reconciled =
    if_case (Applied job mode (gives cfg) reconciled)
      (not (is_primary_discord_assignment cfg job.stream_id)) (λ _. tt)
      λ primary.
        if_case (Applied job mode (gives cfg) reconciled) (not reconciled) (λ _. tt)
          λ open_gateway. (resolve_target-IsKept job mode cfg, inr (ground arith, ground arith))

apply_runtime_discord_config-Applied :
    (m : Manager) (job : VoiceJob) (mode : Mode) (provider : Provider) (reconciled : Bool)
    → Applied job mode provider reconciled
        (apply_runtime_discord_config m job mode provider reconciled)
unfolding apply_runtime_discord_config
apply_runtime_discord_config-Applied m job mode unset reconciled = (IsKept-refl mode job, inr tt)
apply_runtime_discord_config-Applied m job mode fetch_fails reconciled =
    if_case (Applied job mode fetch_fails reconciled) (is_empty (trim job.stream_id))
      (λ unnamed. (IsKept-refl mode job, inl unnamed)) λ named. tt
apply_runtime_discord_config-Applied m job mode (gives cfg) reconciled =
    if_case (Applied job mode (gives cfg) reconciled) (is_empty (trim job.stream_id))
      (λ unnamed. (IsKept-refl mode job, inl unnamed))
      λ named. use_config-Applied m job mode cfg reconciled

start_reply-ok :
    (w : World) (r : Manager × Option Jobs.Error × List Task)
    → (start_reply w r).1.status ≡ 202
    → (r.1 ≡ none) × ((start_reply w r).0 ≡ r.0)
unfolding start_reply
start_reply-ok w (m, none, tasks) h = (refl, refl)
start_reply-ok w (m, some e, tasks) h =
    absurd (ground (arith, write_error-ne (error_text w.voice_error e)))

-- The job that runs: the one of a v2 request, with a target that passed every check.
abbrev pub IsStarted : Mode → VoiceJob → VoiceJob → Type 0
IsStarted resolved_target_v2 job current = (current ≡ job) × IsResolved job
IsStarted legacy job current = current.stream_id ≡ job.stream_id

abbrev Valid : Mode → VoiceJob → Type 0
Valid resolved_target_v2 job = IsResolved job
Valid legacy job = Unit

defaults-IsStarted :
    (mode : Mode) (job used : VoiceJob) (m : Manager)
    → Valid mode job
    → IsKept mode job used
    → IsStarted mode job (apply_voice_defaults m.auto_start used)
defaults-IsStarted resolved_target_v2 job used m v same = (
  ap (apply_voice_defaults m.auto_start) same
      ∙ apply_voice_defaults-id m.auto_start job (valid_discord_id-trim job.guild_id v.guild)
          (valid_discord_id-trim job.voice_channel_id v.voice)
          (valid_discord_id-trim job.text_channel_id v.text),
  v,
)
defaults-IsStarted legacy job used m v same = unfold apply_voice_defaults in same

-- What a start with success has done to the job.
abbrev Done : World → VoiceJob → Mode → Manager × Reply → Type 0
Done w job mode out =
    out.1.status ≡ 202
    → IsAssigned w.provider w.reconciled job.stream_id × IsStarted mode job out.0.current

refuse_start-named :
    (m : Manager) (job : VoiceJob)
    → refuse_start m job ≡ none
    → is_empty (trim job.stream_id) ≡ false
unfolding refuse_start
refuse_start-named m job h = ground arith

named_by_start :
    (m : Manager) (used : VoiceJob)
    → refuse_start m (apply_voice_defaults m.auto_start used) ≡ none
    → is_empty (trim used.stream_id) ≡ false
unfolding apply_voice_defaults
named_by_start m used allowed = refuse_start-named m _ allowed

IsKept-stream :
    (mode : Mode) (job used : VoiceJob) → IsKept mode job used → used.stream_id ≡ job.stream_id
IsKept-stream resolved_target_v2 job used h = ap (λ (j : VoiceJob). j.stream_id) h
IsKept-stream legacy job used h = h

named-IsAssigned :
    (provider : Provider) (reconciled : Bool) (stream : String)
    → (is_empty (trim stream) ≡ true) ⊎ IsAssigned provider reconciled stream
    → is_empty (trim stream) ≡ false
    → IsAssigned provider reconciled stream
named-IsAssigned provider reconciled stream (inl unnamed) named = cc (unnamed, named)
named-IsAssigned provider reconciled stream (inr assigned) named = assigned

start_configured-Done :
    (w : World) (job : VoiceJob) (mode : Mode) (p : Manager × VoiceJob × Option RuntimeError)
    → Valid mode job
    → Applied job mode w.provider w.reconciled p
    → Done w job mode (start_configured w p)
unfolding start_configured
start_configured-Done w job mode (m, used, some not_assigned) v a h =
    absurd (ground (arith, write_error-ne "stream is not assigned to this discord bot as primary"))
start_configured-Done w job mode (m, used, some fetch_failed) v a h = absurd (omega arith)
start_configured-Done w job mode (m, used, some gateway_failed) v a h = absurd (omega arith)
start_configured-Done w job mode (m, used, none) v (kept, assigned) h =
    let run = start m used w.joined w.others w.view w.now in
    let (no_error, out) = start_reply-ok w run h in
    let (allowed, current) = start-current m used w.joined w.others w.view w.now no_error in
    (
      named-IsAssigned w.provider w.reconciled job.stream_id assigned (
          ap (λ s. is_empty (trim s)) (sym (IsKept-stream mode job used kept))
          ∙ named_by_start m used allowed),
      subst (IsStarted mode job) (sym (ap (λ (x : Manager). x.current) out ∙ current))
          (defaults-IsStarted mode job used m v kept),
    )

-- What a request has passed that starts a job.
abbrev pub Passed : World → Json → Option String → Manager × Reply → Type 0
Passed w json body out =
    (job : VoiceJob) × (mode : Mode) × (decode_start_job_request json body ≡ accepted job mode)
    × ((job.job_generation == 0) ≡ false)
    × IsAssigned w.provider w.reconciled job.stream_id
    × IsStarted mode job out.0.current

checked-Valid :
    (json : Json) (body : Option String) (job : VoiceJob) (mode : Mode)
    → IsChecked json body (accepted job mode)
    → Valid mode job
checked-Valid json body job resolved_target_v2 (text, got, r, e, same, v) = v
checked-Valid json body job legacy c = tt

start_decoded-Passed :
    (w : World) (json : Json) (body : Option String) (m : Manager) (d : Decoded)
    → decode_start_job_request json body ≡ d
    → IsChecked json body d
    → (start_decoded w m d).1.status ≡ 202
    → Passed w json body (start_decoded w m d)
unfolding start_decoded
start_decoded-Passed w json body m (rejected e mode) same c h = absurd (omega arith)
start_decoded-Passed w json body m (accepted job mode) same c h =
    if_case Ok (job.job_generation == 0) (λ _ x. absurd (omega arith))
      (λ generation.
        if_case Ok
          (not (is_empty m.current.stream_id) && not (str_eq m.current.stream_id job.stream_id))
          (λ _ x. absurd (ground (arith, write_error-ne "another stream job is already active")))
          λ _ x.
            let (assigned, started) =
              start_configured-Done w job mode
                (apply_runtime_discord_config m job mode w.provider w.reconciled)
                (checked-Valid json body job mode c)
                (apply_runtime_discord_config-Applied m job mode w.provider w.reconciled) x in
            (job, mode, same, generation, assigned, started))
      h
  where
    Ok : Manager × Reply → Type 0
    Ok out = out.1.status ≡ 202 → Passed w json body out

-- A start request that is answered with 202 had a valid token, a body that decodes to a job with a
-- generation, and, where there is a runtime configuration, a stream that is assigned to this bot
-- as primary, its gateways reconciled; the current job is then that of a v2 request exactly, with
-- a valid target and valid tuning, and for a legacy request a job of the requested stream.
pub start_job-Passed :
    (w : World) (json : Json) (m : Manager) (body : Option String)
    → (start_job w json m body).1.status ≡ 202
    → (authorized w ≡ true) × Passed w json body (start_job w json m body)
unfolding start_job
start_job-Passed w json m body h =
    if_case
      (λ (out : Manager × Reply).
        out.1.status ≡ 202 → (authorized w ≡ true) × Passed w json body out)
      (not (authorized w)) (λ _ x. absurd (omega arith))
      (λ known x. (
        ground arith,
        start_decoded-Passed w json body m (decode_start_job_request json body) refl
            (decode_start_job_request-IsChecked json body) x,
      ))
      h
