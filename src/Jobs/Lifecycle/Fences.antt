-- ===== src/Jobs/Lifecycle/Fences.antt =====
-- What starting, stopping and losing the connection cut off (internal/jobs/manager.go,
-- internal/jobs/reconnect.go): nothing of an earlier run is published afterwards.
use autostream_discord_bot.Base.{
  ℕ, String, Bool, true, false, ◌≡◌, ◌≢◌, refl, ap, sym, ◌∙◌, ◌⊎◌, inl, inr, none, some, List,
  arith, if◌then◌else◌, next64, eq_iff, is_empty, trim,
}
use autostream_discord_bot.Types.{VoiceJob, Participant, ChatMessage}
use autostream_discord_bot.Jobs.Delivery.Chat.{chat_to_publish}
use autostream_discord_bot.Retry
use autostream_discord_bot.Retry.{Report, Queue, no_report, enqueue}
use autostream_discord_bot.Jobs.{Manager, another_job_active, job_stopping}
use autostream_discord_bot.Jobs.Delivery.{
  is_current, participants_report, speaker_report, begin_delivery, is_current_retry_report,
  is_own_report, refresh_retry_report, drops, enqueue_retry,
}
use autostream_discord_bot.Jobs.Lifecycle.{
  commit_start, begin_stop, discord_disconnected, refuse_start, rejoined, Round, is_same_run,
  stop_queue,
}

-- The generation of a run that is over.
next64-ne : (n : ℕ) → next64 n ≢ n
next64-ne n = omega arith

silences :
    (u : Manager) (job : VoiceJob) (ps : List Participant) (user name : String) (speaking : Bool)
    (revision id g : ℕ) (message : ChatMessage) (q : Queue) (r : Report)
    (waits meanwhile : Manager → Manager)
    → u.reconnect_generation ≢ g
    → r.reconnect_generation ≡ g
    → (participants_report u job ps revision g ≡ none)
      × (speaker_report u job user name speaking revision g ≡ none)
      × (chat_to_publish u job g message ≡ none)
      × ((begin_delivery u id q r waits meanwhile).1 ≡ drops r)
      × (refresh_retry_report u id r ≡ drops no_report)
unfolding participants_report speaker_report chat_to_publish begin_delivery is_current_retry_report
    is_own_report refresh_retry_report is_current
silences u job ps user name speaking revision id g message q r waits meanwhile differs made =
    (ground arith, ground arith, ground arith, ground arith, ground arith)

-- When a run starts, is being stopped or loses the connection, no report of participants, of a
-- speaker or of a chat message that has the generation of that moment is published from the state
-- that follows; a delivery from a retry queue that begins there drops its report, whatever happens
-- between its sections, and one that has come to its last section publishes nothing.
pub lifecycle-silences :
    (m u : Manager) (started job : VoiceJob) (epoch reason : String) (now : ℕ)
    (ps : List Participant) (user name : String) (speaking : Bool) (revision id : ℕ)
    (message : ChatMessage) (q : Queue) (r : Report) (waits meanwhile : Manager → Manager)
    → (u ≡ commit_start m started epoch now)
      ⊎ (u ≡ begin_stop m)
      ⊎ (u ≡ (discord_disconnected m reason now).0)
    → r.reconnect_generation ≡ m.reconnect_generation
    → (participants_report u job ps revision m.reconnect_generation ≡ none)
      × (speaker_report u job user name speaking revision m.reconnect_generation ≡ none)
      × (chat_to_publish u job m.reconnect_generation message ≡ none)
      × ((begin_delivery u id q r waits meanwhile).1 ≡ drops r)
      × (refresh_retry_report u id r ≡ drops no_report)
unfolding commit_start begin_stop discord_disconnected
lifecycle-silences m u started job epoch reason now ps user name speaking revision id message q r
      waits meanwhile reached made =
    silences u job ps user name speaking revision id m.reconnect_generation message q r waits
      meanwhile (moved reached) made
  where
    next_run :
        (s : Manager)
        → u ≡ s
        → s.reconnect_generation ≡ next64 m.reconnect_generation
        → u.reconnect_generation ≢ m.reconnect_generation
    next_run s e h same =
        next64-ne m.reconnect_generation
          (sym h ∙ sym (ap (λ (t : Manager). t.reconnect_generation) e) ∙ same)

    moved :
        (u ≡ commit_start m started epoch now)
          ⊎ (u ≡ begin_stop m)
          ⊎ (u ≡ (discord_disconnected m reason now).0)
        → u.reconnect_generation ≢ m.reconnect_generation
    moved (inl e) = next_run _ e refl
    moved (inr (inl e)) = next_run _ e refl
    moved (inr (inr e)) = next_run _ e refl

-- A job with a stream, guild and voice channel that are not blank is refused as stopping while a
-- stop is under way, and else as another job while another stream runs.
refuse_start-busy :
    (m : Manager) (job : VoiceJob)
    → is_empty (trim job.stream_id) ≡ false
    → is_empty (trim job.guild_id) ≡ false
    → is_empty (trim job.voice_channel_id) ≡ false
    → (m.stopping ≡ true)
      ⊎ ((is_empty m.current.stream_id ≡ false) × (m.current.stream_id ≢ job.stream_id))
    → refuse_start m job ≡ some (if m.stopping then job_stopping else another_job_active)
unfolding refuse_start
refuse_start-busy m job named guild channel (inl stopping) = ground arith
refuse_start-busy m job named guild channel (inr (busy, other)) =
    ground (arith, eq_iff m.current.stream_id job.stream_id)

stop-stopped : (q : Queue) → (Retry.stop q).stopped ≡ true
stop-stopped q = unfold Retry.stop in ground arith

enqueue-stopped :
    (q : Queue) (r : Report) (now : ℕ) → q.stopped ≡ true → (enqueue q r now).1 ≡ false
unfolding enqueue
enqueue-stopped q r now over = ground arith

enqueue_retry-stopped :
    (m : Manager) (id : ℕ) (q : Queue) (r : Report) (now : ℕ)
    → m.worker_retry ≡ some (id, q)
    → q.stopped ≡ true
    → (enqueue_retry m r now).1 ≡ false
unfolding enqueue_retry
enqueue_retry-stopped m id q r now has over =
    ground (arith, has, enqueue-stopped q (record r { err = none }) now over)

-- The successful call of a rejoin that is no longer of the current run stops the retry queue of
-- the run that is current now: the queue stays in place and takes no report any more.
pub rejoined-stops_foreign_queue :
    (m : Manager) (job : VoiceJob) (generation id : ℕ) (q : Queue) (r : Round) (report : Report)
    (now : ℕ)
    → is_same_run m job generation ≡ false
    → m.worker_retry ≡ some (id, q)
    → let u = rejoined m job generation r in
      (u.worker_retry ≡ some (id, Retry.stop q))
      × (u.current ≡ m.current)
      × (u.reconnect_generation ≡ m.reconnect_generation)
      × ((enqueue_retry u report now).1 ≡ false)
unfolding rejoined
rejoined-stops_foreign_queue m job generation id q r report now other has =
    let stopped : stop_queue m.worker_retry ≡ some (id, Retry.stop q) = ap stop_queue has in
    rw (other, rejoined)
      (
        stopped,
        refl,
        refl,
        enqueue_retry-stopped (record m { worker_retry = stop_queue m.worker_retry }) id
            (Retry.stop q) report now stopped (stop-stopped q),
      )
