-- ===== src/Jobs/Lifecycle/Outcome.antt =====
-- The job that a start leaves (`Start` in internal/jobs/manager.go).
use autostream_discord_bot.Base.{
  ℕ, String, Bool, true, false, ◌&&◌, ◌≡◌, refl, ap, Option, none, some, List, [], if_case, is_nil,
  Option-cases, inl, inr, sym, ◌∙◌,
}
use autostream_discord_bot.Types.{VoiceJob, no_job, ParticipantSnapshot}
use autostream_discord_bot.Jobs
use autostream_discord_bot.Jobs.{Manager}
use autostream_discord_bot.Jobs.Defaults.{apply_voice_defaults}
use autostream_discord_bot.Jobs.AutoStop.Check.{View, no_source, unavailable, seen}
use autostream_discord_bot.Jobs.Roster.{
  Task, ApplyOptions, participants_synced, apply_snapshot, take_snapshot, is_foreign, is_overtaken,
  is_old, trimmed,
}
use autostream_discord_bot.Jobs.Roster.Snapshots.{update_auto_stop-Framed}
use autostream_discord_bot.Jobs.Sync.{hydrate_voice_participants}
use autostream_discord_bot.Jobs.Lifecycle.{
  start, start_checked, refuse_start, commit_start, stop, refuse_stop, end_stop, begin_stop,
  without_retries, commit_stop,
}

take_snapshot-current :
    (m : Manager) (s : ParticipantSnapshot) (now : ℕ)
    → (take_snapshot m s now).0.current ≡ m.current
unfolding take_snapshot
take_snapshot-current m s now =
    ap (λ (u : Manager). u.current)
      (update_auto_stop-Framed _ m.current now "authoritative_snapshot" s.revision)

participants_synced-current :
    (m : Manager) (s : ParticipantSnapshot) (options : ApplyOptions) (now : ℕ)
    → (participants_synced m s options now).0.current ≡ m.current
unfolding participants_synced apply_snapshot
participants_synced-current m s options now =
    if_case Same (is_foreign m (trimmed s) options) (λ _. refl)
      λ _.
        if_case Same (is_overtaken m options) (λ _. refl)
          λ _.
            if_case Same (is_old m (trimmed s)) (λ _. refl)
              λ _. take_snapshot-current m (trimmed s) now
  where
    Same : Manager × Bool × List Task → Type 0
    Same p = p.0.current ≡ m.current

hydrate-current :
    (m : Manager) (view : View) (suppress : Bool) (now : ℕ)
    → (hydrate_voice_participants m view suppress now).0.current ≡ m.current
unfolding hydrate_voice_participants
hydrate-current m no_source suppress now = refl
hydrate-current m unavailable suppress now = refl
hydrate-current m (seen s) suppress now =
    if_case (λ (p : Manager × List Task). p.0.current ≡ m.current)
      (suppress && is_nil s.participants) (λ _. refl) (λ _. participants_synced-current m s _ now)

-- `Start` that gives no error leaves the job that it was given, with its defaults, as the current.
start_checked-current :
    (m : Manager) (job : VoiceJob) (joined : Bool) (others : Manager → Manager) (view : View)
    (now : ℕ)
    → (start_checked m job joined others view now).1 ≡ none
    → (start_checked m job joined others view now).0.current ≡ job
unfolding start_checked commit_start
start_checked-current m job false others view now h = cc h
start_checked-current m job true others view now h = hydrate-current _ view true now

pub start-current :
    (m : Manager) (job : VoiceJob) (joined : Bool) (others : Manager → Manager) (view : View)
    (now : ℕ)
    → (start m job joined others view now).1 ≡ none
    → (refuse_start m (apply_voice_defaults m.auto_start job) ≡ none)
      × ((start m job joined others view now).0.current ≡ apply_voice_defaults m.auto_start job)
unfolding start
start-current m job joined others view now h = by_check (refuse_start m full) refl h
  where
    full : VoiceJob
    full = apply_voice_defaults m.auto_start job

    by_check :
        (o : Option Jobs.Error)
        → refuse_start m full ≡ o
        → (elim o as (λ _. Manager × Option Jobs.Error × List Task) [
          | none ↦ start_checked m full joined others view now
          | some e ↦ (m, some e, [])
        ]).1
          ≡ none
        → (refuse_start m full ≡ none)
          × ((elim o as (λ _. Manager × Option Jobs.Error × List Task) [
            | none ↦ start_checked m full joined others view now
            | some e ↦ (m, some e, [])
          ]).0.current
              ≡ full)
    by_check none e x = (e, start_checked-current m full joined others view now x)
    by_check (some bad) e x = cc x

end_stop-none :
    (u : Manager) (stream : String) (left : Bool) (now : ℕ)
    → (end_stop u stream left now).1 ≡ none
    → (end_stop u stream left now).0.current ≡ no_job
unfolding commit_stop
end_stop-none u stream true now h = refl
end_stop-none u stream false now h = cc h

stops :
    (m : Manager) (stream : String) (left : Bool) (others : Manager → Manager) (now : ℕ)
    → refuse_stop m stream ≡ none
    → stop m stream left others now ≡ end_stop (others (begin_stop m)) m.current.stream_id left now
unfolding stop
stops m stream left others now e = rw (e, stop) refl

refuses :
    (m : Manager) (stream : String) (left : Bool) (others : Manager → Manager) (now : ℕ)
    (bad : Jobs.Error)
    → refuse_stop m stream ≡ some bad
    → stop m stream left others now ≡ (without_retries m, some bad)
unfolding stop
refuses m stream left others now bad e = rw (e, stop) refl

-- `Stop` that gives no error leaves no job.
pub stop-none :
    (m : Manager) (stream : String) (left : Bool) (others : Manager → Manager) (now : ℕ)
    → (stop m stream left others now).1 ≡ none
    → (stop m stream left others now).0.current ≡ no_job
stop-none m stream left others now h = elim (Option-cases (refuse_stop m stream)) [
  | inl e ↦
      let same = stops m stream left others now e in
      ap (λ (p : Manager × Option Jobs.Error). p.0.current) same
      ∙ end_stop-none (others (begin_stop m)) m.current.stream_id left now
          (sym (ap (λ (p : Manager × Option Jobs.Error). p.1) same) ∙ h)
  | inr (bad, e) ↦ cc (refuses m stream left others now bad e, h)
]
