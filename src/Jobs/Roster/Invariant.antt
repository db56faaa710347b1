-- ===== src/Jobs/Roster/Invariant.antt =====
-- Only participants speak, and the highlighted speaker is one of the speakers: every operation on
-- the roster keeps this (internal/jobs/participants.go, internal/jobs/active_speakers.go).
use autostream_discord_bot.Base.{
  ℕ, String, Bool, true, false, ◌≡◌, refl, ap, subst, ◌⊎◌, inl, inr, none, List, [], ◌∷◌, arith,
  keep, if◌then◌else◌, if_case, str_eq, eq_iff, is_empty, trim, lookup, delete, get_or, has_key,
  IsMap, has_key-insert, has_key-delete, get_or-insert, get_or-delete, str_eq_refl, lookup-head,
  lookup-tail, insert-IsMap, delete-IsMap,
}
use autostream_discord_bot.Types.{
  Participant, ParticipantEvent, VoiceParticipant, ParticipantSnapshot,
}
use autostream_discord_bot.Jobs.{RosterState}
use autostream_discord_bot.Jobs.Roster.{
  any_active_speaker, join_roster, leave_roster, seat, replaced, sync_roster, stays, merged,
  newcomer,
}
use autostream_discord_bot.Jobs.Roster.Speakers.{speak}

abbrev pub speaks : RosterState → String → Bool
speaks r user = get_or user false r.active_speakers

pub record RosterInv (r : RosterState) : Type 0 where
  pub participants_map : IsMap r.participants
  pub speakers_map : IsMap r.active_speakers
  pub present : (user : String) → speaks r user ≡ true → has_key user r.participants ≡ true
  pub highlighted : (is_empty r.active_speaker ≡ true) ⊎ (speaks r r.active_speaker ≡ true)

-- The speaker that is found speaks.
any_active_speaker-speaks :
    (m : List (String × Bool))
    → IsMap m
    → (is_empty (any_active_speaker m) ≡ true) ⊎ (get_or (any_active_speaker m) false m ≡ true)
unfolding any_active_speaker
any_active_speaker-speaks [] u = inl refl
any_active_speaker-speaks ((user, true) ∷ rest) u =
    inr (ground (arith, lookup-head user user true rest refl))
any_active_speaker-speaks ((user, false) ∷ rest) u = elim (any_active_speaker-speaks rest u.1) [
  | inl blank ↦ inl blank
  | inr found ↦ inr (ground (arith, lookup-tail user (any_active_speaker rest) false true rest u))
]

lookup-keep :
    (present : List (String × Participant)) (k : String) (m : List (String × Bool))
    → lookup k (keep (stays present) m) ≡ (if has_key k present then lookup k m else none)
unfolding lookup
lookup-keep present k [] = ground arith
lookup-keep present k ((j, b) ∷ m) = ground (
  arith,
  eq_iff j k,
  lookup-keep present k m,
  ap (λ (i : String). has_key i present) {x = j} {y = k},
)

pub join_roster-RosterInv :
    (r : RosterState) (event : ParticipantEvent) (now : ℕ)
    → RosterInv r
    → RosterInv (join_roster r event now)
unfolding join_roster
join_roster-RosterInv r event now v = record {
  participants_map = insert-IsMap event.user_id _ r.participants v.participants_map;
  speakers_map = v.speakers_map;
  present = λ user h. ground (
    arith,
    has_key-insert event.user_id user
        (merged (lookup event.user_id r.participants) (newcomer event now)) r.participants,
    v.present user h,
  );
  highlighted = v.highlighted;
}

-- Where the highlighted speaker is taken out, one of the others is highlighted, if there is one.
rehighlight :
    (r : RosterState) (user : String)
    → RosterInv r
    → let others = delete user r.active_speakers in
      let next =
        if str_eq r.active_speaker user then any_active_speaker others else r.active_speaker in
      (is_empty next ≡ true) ⊎ (get_or next false others ≡ true)
rehighlight r user v =
    if_case
      (λ (next : String).
        (is_empty next ≡ true) ⊎ (get_or next false (delete user r.active_speakers) ≡ true))
      (str_eq r.active_speaker user)
      (λ same.
        any_active_speaker-speaks (delete user r.active_speakers)
          (delete-IsMap user r.active_speakers v.speakers_map))
      (λ apart. ground (
        arith,
        v.highlighted,
        get_or-delete user r.active_speaker false r.active_speakers,
        eq_iff user r.active_speaker,
        eq_iff r.active_speaker user,
      ))

pub leave_roster-RosterInv :
    (r : RosterState) (user : String) → RosterInv r → RosterInv (leave_roster r user)
unfolding leave_roster
leave_roster-RosterInv r user v = record {
  participants_map = delete-IsMap user r.participants v.participants_map;
  speakers_map = delete-IsMap user r.active_speakers v.speakers_map;
  present = λ other h. ground (
    arith,
    has_key-delete user other r.participants,
    get_or-delete user other false r.active_speakers,
    v.present other,
  );
  highlighted = rehighlight r user v;
}

has_key-of :
    (k j : String) (m : List (String × Participant))
    → str_eq k j ≡ true
    → has_key k m ≡ true
    → has_key j m ≡ true
has_key-of k j m same h = subst (λ i. has_key i m ≡ true) ((eq_iff k j).0 same) h

pub speak-RosterInv :
    (r : RosterState) (user : String) (speaking preserve_others : Bool)
    → has_key user r.participants ≡ true
    → RosterInv r
    → RosterInv (speak r user speaking preserve_others)
unfolding speak lookup
speak-RosterInv r user true true here v = record {
  participants_map = v.participants_map;
  speakers_map = insert-IsMap user true r.active_speakers v.speakers_map;
  present = λ other h. ground (
    arith,
    get_or-insert user other true false r.active_speakers,
    v.present other,
    has_key-of user other r.participants,
  );
  highlighted =
      inr (ground (arith, get_or-insert user user true false r.active_speakers, str_eq_refl user));
}
speak-RosterInv r user true false here v = record {
  participants_map = v.participants_map;
  speakers_map = insert-IsMap user true [] tt;
  present = λ other h.
      ground (arith, get_or-insert user other true false [], has_key-of user other r.participants);
  highlighted = inr (ground (arith, get_or-insert user user true false [], str_eq_refl user));
}
speak-RosterInv r user false preserve_others here v = record {
  participants_map = v.participants_map;
  speakers_map = delete-IsMap user r.active_speakers v.speakers_map;
  present =
      λ other h. ground (arith, get_or-delete user other false r.active_speakers, v.present other);
  highlighted = rehighlight r user v;
}

keep-IsMap :
    (present : List (String × Participant)) (m : List (String × Bool))
    → IsMap m
    → IsMap (keep (stays present) m)
keep-IsMap present [] u = tt
keep-IsMap present ((j, b) ∷ m) u =
    ground (arith, keep-IsMap present m u.1, lookup-keep present j m)

seat-IsMap :
    (old : List (String × Participant)) (now : ℕ) (acc : List (String × Participant))
    (item : VoiceParticipant)
    → IsMap acc
    → IsMap (seat old now acc item)
unfolding seat
seat-IsMap old now acc item u =
    if_case IsMap (is_empty (trim item.user_id)) (λ blank. u) (λ named. insert-IsMap _ _ acc u)

replaced-IsMap :
    (old : List (String × Participant)) (now : ℕ) (acc : List (String × Participant))
    (items : List VoiceParticipant)
    → IsMap acc
    → IsMap (replaced old now acc items)
unfolding replaced
replaced-IsMap old now acc [] u = u
replaced-IsMap old now acc (item ∷ items) u =
    replaced-IsMap old now (seat old now acc item) items (seat-IsMap old now acc item u)

sync-highlighted :
    (active : String) (speakers : List (String × Bool))
    → IsMap speakers
    → let next = if get_or active false speakers then active else any_active_speaker speakers in
      (is_empty next ≡ true) ⊎ (get_or next false speakers ≡ true)
sync-highlighted active speakers u =
    if_case (λ (next : String). (is_empty next ≡ true) ⊎ (get_or next false speakers ≡ true))
      (get_or active false speakers) (λ still. inr still)
      (λ gone. any_active_speaker-speaks speakers u)

pub sync_roster-RosterInv :
    (r : RosterState) (s : ParticipantSnapshot) (now : ℕ)
    → RosterInv r
    → RosterInv (sync_roster r s now)
unfolding sync_roster
sync_roster-RosterInv r s now v = record {
  participants_map = replaced-IsMap r.participants now [] s.participants tt;
  speakers_map = keep-IsMap _ r.active_speakers v.speakers_map;
  present = λ user h.
      ground
        (arith, lookup-keep (replaced r.participants now [] s.participants) user r.active_speakers);
  highlighted =
      sync-highlighted r.active_speaker
        (keep (stays (replaced r.participants now [] s.participants)) r.active_speakers)
        (keep-IsMap _ r.active_speakers v.speakers_map);
}
