-- ===== src/Jobs/Roster/Speaking.antt =====
-- The handlers of speakers keep the roster well formed (internal/jobs/active_speakers.go).
use autostream_discord_bot.Base.{
  lookup, ℕ, String, Bool, true, false, not, ◌||◌, refl, Option, List, [], arith, if_case, is_empty,
  is_nil, has_key, inl,
}
use autostream_discord_bot.Jobs.{Manager, RosterState, Error}
use autostream_discord_bot.Jobs.Roster.{Task, events_paused}
use autostream_discord_bot.Jobs.Roster.Speakers.{
  already, take_speaker, is_other, set_speaker_state, clear_speakers, clear_speaker_states,
  set_active_speaker,
}
use autostream_discord_bot.Jobs.Roster.Invariant.{RosterInv, speak-RosterInv}
use autostream_discord_bot.Jobs.Roster.Snapshots.{bump-RosterInv}

abbrev RosterOf : Manager × Option Error × List Task → Type 0
RosterOf p = RosterInv p.0.roster

set_speaker_state-RosterInv :
    (m : Manager) (stream user : String) (speaking preserve_others : Bool) (now : ℕ)
    → RosterInv m.roster
    → RosterInv (set_speaker_state m stream user speaking preserve_others now).0.roster
unfolding set_speaker_state take_speaker
set_speaker_state-RosterInv m stream user speaking preserve_others now v =
    if_case RosterOf (events_paused m || is_empty m.current.stream_id) (λ _. v)
      λ _.
        if_case RosterOf (is_other m stream) (λ _. v)
          λ _.
            if_case RosterOf (not (has_key user m.roster.participants)) (λ _. v)
              λ here.
                if_case RosterOf (already m.roster user speaking preserve_others) (λ _. v)
                  λ _.
                    bump-RosterInv _ _
                      (speak-RosterInv m.roster user speaking preserve_others (ground arith) v)

silent-RosterInv :
    (r : RosterState)
    → RosterInv r
    → RosterInv (record r { active_speakers = []; active_speaker = "" })
unfolding lookup
silent-RosterInv r v = record {
  participants_map = v.participants_map;
  speakers_map = tt;
  present = λ user h. cc;
  highlighted = inl refl;
}

clear_speaker_states-RosterInv :
    (m : Manager) (stream : String) (now : ℕ)
    → RosterInv m.roster
    → RosterInv (clear_speaker_states m stream now).0.roster
unfolding clear_speaker_states clear_speakers
clear_speaker_states-RosterInv m stream now v =
    if_case RosterOf (is_empty m.current.stream_id) (λ _. v)
      λ _.
        if_case RosterOf (is_other m stream) (λ _. v)
          λ _.
            if_case RosterOf (is_nil m.roster.active_speakers) (λ _. v)
              λ _. bump-RosterInv _ _ (silent-RosterInv m.roster v)

-- If the speakers are among the participants and the highlighted speaker among the speakers, they
-- still are when the Control Panel sets or clears the speaker, accepted or refused.
set_active_speaker-RosterInv :
    (m : Manager) (stream user : String) (now : ℕ)
    → RosterInv m.roster
    → RosterInv (set_active_speaker m stream user now).0.roster
unfolding set_active_speaker
set_active_speaker-RosterInv m stream user now v =
    if_case RosterOf (is_empty user) (λ _. clear_speaker_states-RosterInv m stream now v)
      (λ _. set_speaker_state-RosterInv m stream user true false now v)
