-- ===== src/Jobs/AutoStart/Matching.antt =====
-- Which waiting stream a join starts (`matchingAutoStartStreamLocked` in
-- internal/jobs/auto_start.go): the one that waits for the channel, if no other does.
use autostream_discord_bot.Base.{
  ◌||◌, str_eq_refl, String, true, false, not, ◌≡◌, refl, ap, sym, ◌∙◌, inl, inr, some, List, [],
  ◌∷◌, arith, All, if◌then◌else◌, if_case, is_empty, str_eq, eq_iff, trim, lookup, lookup-head,
  lookup-tail, IsMap, Bool-cases,
}
use autostream_discord_bot.Jobs.{StartState, VoiceDefaults}
use autostream_discord_bot.Jobs.AutoStart.{waits_for, match_stream, matching_auto_start_stream}

-- No waiting stream has the empty name.
abbrev pub Named : List (String × VoiceDefaults) → Type 0
Named m = All (λ e. is_empty e.0 ≡ false) m

match_stream-hit :
    (g v matched j : String) (x : VoiceDefaults) (m : List (String × VoiceDefaults))
    → waits_for g v x ≡ true
    → match_stream g v matched ((j, x) ∷ m)
      ≡ (if not (is_empty matched) then "" else match_stream g v j m)
unfolding match_stream
match_stream-hit g v matched j x m hit = rw hit refl

match_stream-miss :
    (g v matched j : String) (x : VoiceDefaults) (m : List (String × VoiceDefaults))
    → waits_for g v x ≡ false
    → match_stream g v matched ((j, x) ∷ m) ≡ match_stream g v matched m
unfolding match_stream
match_stream-miss g v matched j x m miss = rw miss refl

match_stream-spoilt :
    (g v matched j : String) (x : VoiceDefaults) (m : List (String × VoiceDefaults))
    → is_empty matched ≡ false
    → waits_for g v x ≡ true
    → match_stream g v matched ((j, x) ∷ m) ≡ ""
match_stream-spoilt g v matched j x m h hit = match_stream-hit g v matched j x m hit ∙ rw h refl

-- Once a stream is matched, a second one that waits spoils the answer.
match_stream-keeps :
    (g v matched : String) (m : List (String × VoiceDefaults))
    → is_empty matched ≡ false
    → is_empty (match_stream g v matched m) ≡ false
    → match_stream g v matched m ≡ matched
match_stream-keeps g v matched [] h k = unfold match_stream in refl
match_stream-keeps g v matched ((j, x) ∷ m) h k = elim (Bool-cases (waits_for g v x)) [
  | inl hit ↦ cc (ap is_empty (match_stream-spoilt g v matched j x m h hit))
  | inr miss ↦
      let same = match_stream-miss g v matched j x m miss in
      same ∙ match_stream-keeps g v matched m h (ap is_empty (sym same) ∙ k)
]

match_stream-alone :
    (g v matched : String) (m : List (String × VoiceDefaults)) (k : String) (d : VoiceDefaults)
    → is_empty matched ≡ false
    → is_empty (match_stream g v matched m) ≡ false
    → lookup k m ≡ some d
    → waits_for g v d ≡ false
unfolding lookup
match_stream-alone g v matched [] k d h answered e = cc
match_stream-alone g v matched ((j, x) ∷ m) k d h answered e = elim (Bool-cases (waits_for g v x)) [
  | inl hit ↦ cc (ap is_empty (match_stream-spoilt g v matched j x m h hit))
  | inr miss ↦
      let rest = ap is_empty (sym (match_stream-miss g v matched j x m miss)) ∙ answered in
      elim (Bool-cases (str_eq j k)) [
        | inl here ↦ let same : x ≡ d = ground arith in ap (waits_for g v) (sym same) ∙ miss
        | inr there ↦ match_stream-alone g v matched m k d h rest (ground arith)
      ]
]

-- What an answer of the loop that begins with no match says of a list.
abbrev Waits : String → String → List (String × VoiceDefaults) → String → Type 0
Waits g v m s = (d : VoiceDefaults) × (lookup s m ≡ some d) × (waits_for g v d ≡ true)

match_stream-Waits :
    (g v : String) (m : List (String × VoiceDefaults))
    → IsMap m
    → Named m
    → is_empty (match_stream g v "" m) ≡ false
    → Waits g v m (match_stream g v "" m)
match_stream-Waits g v [] u named answered = unfold match_stream in cc
match_stream-Waits g v ((j, x) ∷ m) u named answered = elim (Bool-cases (waits_for g v x)) [
  | inl hit ↦
      let same : match_stream g v "" ((j, x) ∷ m) ≡ match_stream g v j m =
        match_stream-hit g v "" j x m hit in
      let kept = match_stream-keeps g v j m named.0 (ap is_empty (sym same) ∙ answered) in
      (x, lookup-head (match_stream g v "" ((j, x) ∷ m)) j x m (same ∙ kept), hit)
  | inr miss ↦
      let same = match_stream-miss g v "" j x m miss in
      let (d, e, waits) =
        match_stream-Waits g v m u.1 named.1 (ap is_empty (sym same) ∙ answered) in
      (
        d,
        ap (λ s. lookup s ((j, x) ∷ m)) same ∙ lookup-tail j (match_stream g v "" m) x d m u e,
        waits,
      )
]

match_stream_unique :
    (g v : String) (m : List (String × VoiceDefaults)) (k : String) (d : VoiceDefaults)
    → Named m
    → is_empty (match_stream g v "" m) ≡ false
    → lookup k m ≡ some d
    → waits_for g v d ≡ true
    → match_stream g v "" m ≡ k
unfolding lookup
match_stream_unique g v [] k d named answered e waits = cc
match_stream_unique g v ((j, x) ∷ m) k d named answered e waits =
    elim (Bool-cases (waits_for g v x)) [
      | inl hit ↦
          let same : match_stream g v "" ((j, x) ∷ m) ≡ match_stream g v j m =
            match_stream-hit g v "" j x m hit in
          let rest = ap is_empty (sym same) ∙ answered in
          elim (Bool-cases (str_eq j k)) [
            | inl here ↦ same ∙ match_stream-keeps g v j m named.0 rest ∙ (eq_iff j k).0 here
            | inr there ↦ cc (match_stream-alone g v j m k d named.0 rest (ground arith))
          ]
      | inr miss ↦
          let same = match_stream-miss g v "" j x m miss in
          elim (Bool-cases (str_eq j k)) [
            | inl here ↦ let old : x ≡ d = ground arith in cc (ap (waits_for g v) old)
            | inr there ↦
                same
                ∙ match_stream_unique g v m k d named.1 (ap is_empty (sym same) ∙ answered)
                    (ground arith) waits
          ]
    ]

match_stream-decides :
    (g v : String) (m : List (String × VoiceDefaults)) (k : String) (d : VoiceDefaults)
    → IsMap m
    → Named m
    → is_empty (match_stream g v "" m) ≡ false
    → lookup k m ≡ some d
    → str_eq (match_stream g v "" m) k ≡ waits_for g v d
match_stream-decides g v m k d u named answered e = elim (Bool-cases (waits_for g v d)) [
  | inl waits ↦
      let same = match_stream_unique g v m k d named answered e waits in
      ap (λ s. str_eq s k) same ∙ str_eq_refl k ∙ sym waits
  | inr idle ↦ elim (Bool-cases (str_eq (match_stream g v "" m) k)) [
    | inr other ↦ other ∙ sym idle
    | inl same ↦
        let (d', e', waits) = match_stream-Waits g v m u named answered in
        let found : lookup k m ≡ some d' =
          ap (λ s. lookup s m) (sym ((eq_iff (match_stream g v "" m) k).0 same)) ∙ e' in
        cc (some_inj (sym found ∙ e))
  ]
]
  where
    some_inj : {x y : VoiceDefaults} → some x ≡ some y → x ≡ y
    some_inj h = cc

-- If the waiting streams are a map without an empty name and a stream is matched to a channel,
-- then any waiting stream is the matched one exactly if it starts by itself and has this channel.
pub matching_auto_start_stream_unique :
    (a : StartState) (guild voice k : String) (d : VoiceDefaults)
    → IsMap a.stream_defaults
    → Named a.stream_defaults
    → is_empty (matching_auto_start_stream a guild voice) ≡ false
    → lookup k a.stream_defaults ≡ some d
    → str_eq (matching_auto_start_stream a guild voice) k ≡ waits_for (trim guild) (trim voice) d
unfolding matching_auto_start_stream
matching_auto_start_stream_unique a guild voice k d u named answered e =
    if_case Unique (is_empty (trim guild) || is_empty (trim voice)) (λ _ h. cc)
      (λ _ h. match_stream-decides (trim guild) (trim voice) a.stream_defaults k d u named h e)
      answered
  where
    Unique : String → Type 0
    Unique s = is_empty s ≡ false → str_eq s k ≡ waits_for (trim guild) (trim voice) d
