-- ===== src/Http/Server/Stopped.antt =====
-- A request that stops a job (stopJob in internal/httpapi/server.go).
use autostream_discord_bot.Base.{
  String, true, not, ◌≡◌, ◌↔◌, refl, ap, Option, none, some, arith, if_case, is_empty, trim,
}
use autostream_discord_bot.Jobs
use autostream_discord_bot.Jobs.{Manager}
use autostream_discord_bot.Jobs.Lifecycle.{stop}
use autostream_discord_bot.Jobs.Lifecycle.Outcome.{stop-none}
use autostream_discord_bot.Http.{Reply}
use autostream_discord_bot.Http.Server.{World, authorized, stop_job, stop_reply, error_text}
use autostream_discord_bot.Http.Server.Started.{write_error-ne}

-- The answer is 202, and then only, when no job runs.
abbrev Idle : Manager × Reply → Type 0
Idle out = (out.1.status ≡ 202) ↔ (is_empty out.0.current.stream_id ≡ true)

stop_reply-Idle :
    (w : World) (r : Manager × Option Jobs.Error)
    → (r.1 ≡ none → is_empty r.0.current.stream_id ≡ true)
    → Idle (stop_reply w r)
unfolding stop_reply
stop_reply-Idle w (m, none) gone = (λ _. gone refl, λ _. refl)
stop_reply-Idle w (m, some e) gone =
    if_case Idle (is_empty m.current.stream_id) (λ idle. (λ _. idle, λ _. refl))
      λ runs. (
        λ x. absurd (ground (arith, write_error-ne (error_text w.voice_error e))),
        λ idle. absurd (ground arith),
      )

-- A stop request with a valid token is answered with 202, stopped or already stopped, exactly if
-- no job runs after it, whatever other goroutines do meanwhile.
pub stop_job-idle :
    (w : World) (m : Manager) (id : String)
    → authorized w ≡ true
    → ((stop_job w m id).1.status ≡ 202) ↔ (is_empty (stop_job w m id).0.current.stream_id ≡ true)
unfolding stop_job
stop_job-idle w m id known =
    if_case Idle (not (authorized w)) (λ unknown. absurd (ground arith))
      λ _.
        if_case Idle (is_empty m.current.stream_id) (λ idle. (λ _. idle, λ _. refl))
          λ _. stop_reply-Idle w (stop m (trim id) w.left w.others w.now) λ none_left.
            ap (λ j. is_empty j.stream_id) (stop-none m (trim id) w.left w.others w.now none_left)
