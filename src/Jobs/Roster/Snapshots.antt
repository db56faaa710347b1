-- ===== src/Jobs/Roster/Snapshots.antt =====
-- What a snapshot of the voice channel does to the participants (`participantsSynced` in
-- internal/jobs/participants.go), and what the handlers of the roster leave alone.
use autostream_discord_bot.Base.{
  ℕ, String, Bool, true, false, not, ◌||◌, ◌≡◌, refl, ap, sym, ◌∙◌, subst, ◌⊎◌, Option, List, [],
  ◌∷◌, arith, any, if_case, str_eq, eq_iff, is_empty, is_nil, trim, lookup, has_key, has_key-insert,
}
use autostream_discord_bot.Types.{
  VoiceJob, Participant, ParticipantEvent, VoiceParticipant, ParticipantSnapshot,
}
use autostream_discord_bot.Jobs.{Manager, RosterState, StopState, Observation}
use autostream_discord_bot.Jobs.AutoStop.{
  update_auto_stop, record_rejoin_intent, has_auto_stop_in_flight, is_held, note_return,
  keep_running, cancel_auto_stop, schedule_check,
}
use autostream_discord_bot.Jobs.Roster.{
  Task, moved, ignores_event, take_event, is_overtaken, is_old, take_snapshot, participant_changed,
  seat, replaced, is_foreign, apply_snapshot, ApplyOptions, merged, listed,
}
use autostream_discord_bot.Jobs.Roster.Invariant.{
  RosterInv, join_roster-RosterInv, leave_roster-RosterInv, sync_roster-RosterInv,
}

-- The user is in the list of a snapshot.
abbrev pub listed_in : String → List VoiceParticipant → Bool
listed_in user = any (λ item. str_eq (trim item.user_id) user)

seat-has_key :
    (old : List (String × Participant)) (now : ℕ) (acc : List (String × Participant))
    (item : VoiceParticipant) (user : String)
    → is_empty user ≡ false
    → has_key user (seat old now acc item) ≡ (has_key user acc || str_eq (trim item.user_id) user)
unfolding seat
seat-has_key old now acc item user named = ground (
  arith,
  has_key-insert (trim item.user_id) user
      (merged (lookup (trim item.user_id) old) (listed item now)) acc,
  named-differs (trim item.user_id) user named,
)
  where
    named-differs : (k j : String) → is_empty j ≡ false → is_empty k ≡ true → str_eq k j ≡ false
    named-differs k j named blank = ground (arith, eq_iff k j, ap is_empty {x = k} {y = j})

replaced-has_key :
    (old : List (String × Participant)) (now : ℕ) (acc : List (String × Participant))
    (items : List VoiceParticipant) (user : String)
    → is_empty user ≡ false
    → has_key user (replaced old now acc items) ≡ (has_key user acc || listed_in user items)
unfolding replaced
replaced-has_key old now acc [] user named = ground arith
replaced-has_key old now acc (item ∷ items) user named = ground (
  arith,
  replaced-has_key old now (seat old now acc item) items user named,
  seat-has_key old now acc item user named,
)

-- Two states differ at most in the fields of the auto-stop and of the rejoin intents.
abbrev pub Framed : Manager → Manager → Type 0
Framed m u = u ≡ record m { auto_stop = u.auto_stop; rejoin = u.rejoin }

record_rejoin_intent-Framed :
    (m : Manager) (source guild voice : String)
    → Framed m (record_rejoin_intent m source guild voice)
unfolding record_rejoin_intent
record_rejoin_intent-Framed m source guild voice =
    if_case (Framed m) (is_empty (trim source) || is_empty (trim guild) || is_empty (trim voice))
      (λ _. refl) (λ _. refl)

note_return-Framed : (m : Manager) (job : VoiceJob) → Framed m (note_return m job)
unfolding note_return
note_return-Framed m job =
    if_case (Framed m) (has_auto_stop_in_flight m.auto_stop job.stream_id)
      (λ _. record_rejoin_intent-Framed m job.stream_id job.guild_id job.voice_channel_id)
      (λ _. refl)

-- A write of the auto-stop fields stays within the frame.
Framed-auto_stop :
    (m u : Manager) (a : StopState) → Framed m u → Framed m (record u { auto_stop = a })
Framed-auto_stop m u a h = ap (λ (w : Manager). record w { auto_stop = a }) h

-- The policy on empty channels leaves the roster, the job and the fences alone.
pub update_auto_stop-Framed :
    (m : Manager) (job : VoiceJob) (now : ℕ) (source : String) (revision : ℕ)
    → Framed m (update_auto_stop m job now source revision).0
unfolding update_auto_stop keep_running
update_auto_stop-Framed m job now source revision =
    if_case Fits (not (is_nil m.roster.participants))
      (λ _.
        Framed-auto_stop m (note_return m job)
          (cancel_auto_stop (note_return m job).auto_stop job.stream_id) (note_return-Framed m job))
      λ _.
        if_case Fits (not m.auto_stop.stopper) (λ _. refl)
          λ _.
            if_case Fits (is_held m.auto_stop job.stream_id now) (λ _. refl)
              (λ _. unfold schedule_check in refl)
  where
    Fits : Manager × Option Observation → Type 0
    Fits p = Framed m p.0

pub update_auto_stop-roster :
    (m : Manager) (job : VoiceJob) (now : ℕ) (source : String) (revision : ℕ)
    → (update_auto_stop m job now source revision).0.roster ≡ m.roster
update_auto_stop-roster m job now source revision =
    ap (λ (u : Manager). u.roster) (update_auto_stop-Framed m job now source revision)

-- A change of the state revision alone.
pub bump-RosterInv :
    (r : RosterState) (revision : ℕ)
    → RosterInv r
    → RosterInv (record r { state_revision = revision })
bump-RosterInv r revision v = record {
  participants_map = v.participants_map;
  speakers_map = v.speakers_map;
  present = v.present;
  highlighted = v.highlighted;
}

moved-RosterInv :
    (r : RosterState) (event : ParticipantEvent) (now : ℕ)
    → RosterInv r
    → RosterInv (moved r event now)
unfolding moved
moved-RosterInv r event now v =
    if_case RosterInv event.present (λ _. join_roster-RosterInv r event now v)
      (λ _. leave_roster-RosterInv r event.user_id v)

-- If the speakers are among the participants and the highlighted speaker among the speakers, they
-- still are when somebody joins or leaves.
pub participant_changed-RosterInv :
    (m : Manager) (event : ParticipantEvent) (now : ℕ)
    → RosterInv m.roster
    → RosterInv (participant_changed m event now).0.roster
unfolding participant_changed take_event
participant_changed-RosterInv m event now v =
    if_case (λ (p : Manager × List Task). RosterInv p.0.roster) (ignores_event m event) (λ _. v)
      λ _.
        subst RosterInv (sym (update_auto_stop-roster _ m.current now _ _))
          (bump-RosterInv _ _ (moved-RosterInv m.roster event now v))

abbrev RosterOf : Manager × Bool × List Task → Type 0
RosterOf p = RosterInv p.0.roster

-- If the speakers are among the participants and the highlighted speaker among the speakers, they
-- still are after a snapshot, whatever it holds.
pub apply_snapshot-RosterInv :
    (m : Manager) (s : ParticipantSnapshot) (options : ApplyOptions) (now : ℕ)
    → RosterInv m.roster
    → RosterInv (apply_snapshot m s options now).0.roster
unfolding apply_snapshot take_snapshot
apply_snapshot-RosterInv m s options now v =
    if_case RosterOf (is_foreign m s options) (λ _. v)
      λ _.
        if_case RosterOf (is_overtaken m options) (λ _. v)
          λ _.
            if_case RosterOf (is_old m s) (λ _. v)
              λ _.
                subst RosterInv (sym (update_auto_stop-roster _ m.current now _ _))
                  (bump-RosterInv _ _ (sync_roster-RosterInv m.roster s now v))

apply_snapshot-takes :
    (m : Manager) (s : ParticipantSnapshot) (options : ApplyOptions) (now : ℕ)
    → is_foreign m s options ≡ false
    → is_overtaken m options ≡ false
    → is_old m s ≡ false
    → apply_snapshot m s options now ≡ take_snapshot m s now
unfolding apply_snapshot
apply_snapshot-takes m s options now ours newer fresh = rw (ours, newer, fresh)

take_snapshot-exact :
    (m : Manager) (s : ParticipantSnapshot) (now : ℕ) (user : String)
    → is_empty user ≡ false
    → has_key user (take_snapshot m s now).0.roster.participants ≡ listed_in user s.participants
unfolding take_snapshot
take_snapshot-exact m s now user named =
    ap (λ (r : RosterState). has_key user r.participants)
      (update_auto_stop-roster _ m.current now _ _)
    ∙ replaced-has_key m.roster.participants now [] s.participants user named
    ∙ unfold lookup in refl

-- A snapshot that is not foreign, not overtaken and not old is applied, and then a user with a
-- name that is not empty is a participant exactly if the snapshot lists it.
pub apply_snapshot-exact :
    (m : Manager) (s : ParticipantSnapshot) (options : ApplyOptions) (now : ℕ) (user : String)
    → is_foreign m s options ≡ false
    → is_overtaken m options ≡ false
    → is_old m s ≡ false
    → is_empty user ≡ false
    → ((apply_snapshot m s options now).1 ≡ true)
      × (has_key user (apply_snapshot m s options now).0.roster.participants
          ≡ listed_in user s.participants)
apply_snapshot-exact m s options now user ours newer fresh named =
    let taken = apply_snapshot-takes m s options now ours newer fresh in
    (
      ap (λ (p : Manager × Bool × List Task). p.1) taken ∙ unfold take_snapshot in refl,
      ap (λ (p : Manager × Bool × List Task). has_key user p.0.roster.participants) taken
          ∙ take_snapshot-exact m s now user named,
    )

-- A snapshot that is foreign, overtaken or old leaves the state as it was, and only a foreign one
-- is refused.
apply_snapshot-skips :
    (m : Manager) (s : ParticipantSnapshot) (options : ApplyOptions) (now : ℕ)
    → (is_foreign m s options ≡ true) ⊎ (is_overtaken m options ≡ true) ⊎ (is_old m s ≡ true)
    → ((apply_snapshot m s options now).0 ≡ m)
      × ((apply_snapshot m s options now).1 ≡ not (is_foreign m s options))
unfolding apply_snapshot
apply_snapshot-skips m s options now h = ground arith
