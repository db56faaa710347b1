-- ===== src/Http/Youtube/Canonical.antt =====
-- The form of a watch URL (validateYouTubeWatchURL in internal/httpapi/youtube_live.go).
use Prim.Native.Char.{Char}
use Prim.Native.String
use Prim.Native.String.append
use Prim.Native.String.{len}
use autostream_discord_bot.Base.{
  ◌≤◌, String, true, false, not, ◌||◌, ◌≡◌, refl, subst, ap, sym, ◌∙◌, Option, none, some, arith,
  if_case, ltb, is_empty, trim, append, has_char, lower_eq, equal_fold, fold_code, lower_code,
}
use autostream_discord_bot.Control.{Url}
use autostream_discord_bot.Http.Youtube.{
  valid_video_id, video_id, watch_url, check_video_id, check_watch_url, validate_watch_url, is_hash,
  max_watch_url_length,
}

-- What `url.Parse` makes of the canonical URL of an id: nothing but the host, the path and the id.
abbrev pub ParsesTo : (String → Option Url) → String → String → Type 0
ParsesTo parse text id =
    (query : String) × (parse text
      ≡ some (record {
        scheme = "https";
        host = "www.youtube.com";
        hostname = "www.youtube.com";
        port = "";
        has_user = false;
        raw_query = query;
        fragment = "";
        path = "/watch";
        query_v = id;
      }))

-- A URL that passes the check is given back as the canonical URL of a valid id.
abbrev pub Canonical : (String → String) → String → Type 0
Canonical escape text = (id : String) × (valid_video_id id ≡ true) × (watch_url escape id ≡ text)

check_video_id-Canonical :
    (escape : String → String) (o : Option String) (text : String)
    → check_video_id escape o ≡ some text
    → Canonical escape text
unfolding check_video_id
check_video_id-Canonical escape none text h = cc h
check_video_id-Canonical escape (some id) text h =
    if_case (λ (r : Option String). r ≡ some text → Canonical escape text) (valid_video_id id)
      (λ valid e. (id, valid, cc e)) (λ _ e. cc e) h

check_watch_url-Canonical :
    (escape : String → String) (o : Option Url) (text : String)
    → check_watch_url escape o ≡ some text
    → Canonical escape text
unfolding check_watch_url
check_watch_url-Canonical escape none text h = cc h
check_watch_url-Canonical escape (some u) text h =
    if_case (λ (r : Option String). r ≡ some text → Canonical escape text)
      (not (equal_fold u.scheme "https")
        || is_empty u.host
        || u.has_user
        || not (is_empty u.fragment)
        || not (is_empty u.port))
      (λ _ e. cc e) (λ _ e. check_video_id-Canonical escape (video_id u) text e) h

validate_watch_url-Canonical :
    (parse : String → Option Url) (escape : String → String) (raw text : String)
    → validate_watch_url parse escape raw ≡ some text
    → Canonical escape text
unfolding validate_watch_url
validate_watch_url-Canonical parse escape raw text h =
    if_case (λ (r : Option String). r ≡ some text → Canonical escape text)
      (is_empty (trim raw)
        || ltb max_watch_url_length (len (trim raw))
        || has_char is_hash (trim raw))
      (λ _ e. cc e) (λ _ e. check_watch_url-Canonical escape (parse (trim raw)) text e) h

canonical-passes :
    (parse : String → Option Url) (escape : String → String) (id : String)
    → valid_video_id id ≡ true
    → ParsesTo parse (watch_url escape id) id
    → check_watch_url escape (parse (watch_url escape id)) ≡ some (watch_url escape id)
unfolding check_watch_url check_video_id video_id equal_fold lower_eq fold_code append lower_code
canonical-passes parse escape id valid (query, parsed) = rw (parsed, valid) refl

plain-passes :
    (parse : String → Option Url) (escape : String → String) (text : String)
    → is_empty text ≡ false
    → trim text ≡ text
    → has_char is_hash text ≡ false
    → len text ≤ max_watch_url_length
    → validate_watch_url parse escape text ≡ check_watch_url escape (parse text)
unfolding validate_watch_url
plain-passes parse escape text named trimmed no_hash short = rw trimmed (ground arith)

append-ne : (c : Char) (s t : String) → is_empty (String.◌++◌ (String.◌∷◌ c s) t) ≡ false
append-ne c s t = λ i. is_empty (append.cons c s t i)

watch_url-ne : (escape : String → String) (id : String) → is_empty (watch_url escape id) ≡ false
unfolding append
watch_url-ne escape id = append-ne "h" "ttps://www.youtube.com/watch?v=" (escape id)

-- A URL that the check gives back passes the check again and is given back unchanged, where it has
-- no surrounding space and no # and is not too long, and where url.Parse reads the canonical URL
-- of a video id back, with that id as its v, whatever the text of its query.
pub validate_watch_url_idem :
    (parse : String → Option Url) (escape : String → String) (raw text : String)
    → ((id : String) → valid_video_id id ≡ true → ParsesTo parse (watch_url escape id) id)
    → trim text ≡ text
    → has_char is_hash text ≡ false
    → len text ≤ max_watch_url_length
    → validate_watch_url parse escape raw ≡ some text
    → validate_watch_url parse escape text ≡ some text
validate_watch_url_idem parse escape raw text parses trimmed no_hash short passed =
    let (id, valid, same) = validate_watch_url-Canonical parse escape raw text passed in
    plain-passes parse escape text (ap is_empty (sym same) ∙ watch_url-ne escape id) trimmed no_hash
      short
    ∙ subst (λ t. check_watch_url escape (parse t) ≡ some t) same
        (canonical-passes parse escape id valid (parses id valid))
