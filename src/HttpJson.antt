-- ===== src/HttpJson.antt =====
-- internal/util/httpjson.go: WriteJSON and its conditional replies. encoding/json, SHA-256 in
-- hexadecimal, and the texts of times are parameters. A time is in nanoseconds here, because the
-- text of a time in a header has whole seconds.
pub mod Laws
use Prim.Native.String as Text
use lumescope.Prelude.{
  ℕ, String, Bool, true, false, ◌&&◌, not, Option, none, some, ◌==◌, string_eq, leb, if◌then◌else◌,
}
use lumescope.Server.Cors.{Headers, set_header}

pub record Formats : Type 0 where
  -- the first 8 bytes of the SHA-256 sum of a text, in hexadecimal
  pub digest : String → String
  pub format_time : ℕ → String
  pub parse_time : String → Option ℕ

-- the two headers of a request, "" if missing
pub record Conditions : Type 0 where
  pub if_none_match : String
  pub if_modified_since : String

pub record Response : Type 0 where
  pub status : ℕ
  pub headers : Headers
  pub body : Option String

unfoldable pub make_weak_etag : Formats → String → String
make_weak_etag fmt body = Text.◌++◌ "W/\"" (Text.◌++◌ (fmt.digest body) "\"")

with_last_modified : Formats → Option ℕ → Headers → Headers
with_last_modified fmt none hs = hs
with_last_modified fmt (some t) hs = set_header "Last-Modified" (fmt.format_time t) hs

-- lastModified is not after the time that is given
unmodified_at : ℕ → Option ℕ → Bool
unmodified_at last none = false
unmodified_at last (some t) = leb last t

unmodified_since : Formats → String → Option ℕ → Bool
unfolding unmodified_at
unmodified_since fmt since none = false
unmodified_since fmt since (some last) =
    not (since == "") && unmodified_at last (fmt.parse_time since)

respond : Formats → Conditions → ℕ → String → Option ℕ → Headers → Response
unfolding make_weak_etag with_last_modified unmodified_since
respond fmt c status body last hs =
    let etag = make_weak_etag fmt body in
    let headers = with_last_modified fmt last (set_header "ETag" etag hs) in
    if not (c.if_none_match == "") && c.if_none_match == etag
    then record { status = 304; headers = headers; body = none }
    else if unmodified_since fmt c.if_modified_since last
    then record { status = 304; headers = headers; body = none }
    else record { status = status; headers = headers; body = some body }

abbrev json_headers : Headers → Headers
json_headers hs = set_header "Content-Type" "application/json" hs

-- `none`: the value has no JSON
write_body : Formats → Conditions → ℕ → Option String → Option ℕ → Headers → Response
unfolding respond
write_body fmt c status none last hs = record {
  status = 500;
  headers =
      set_header "X-Content-Type-Options" "nosniff"
        (set_header "Content-Type" "text/plain; charset=utf-8" hs);
  body = some "{\"error\":\"internal_error\"}\n";
}
write_body fmt c status (some body) last hs = respond fmt c status body last hs

unfoldable pub write_json :
    {A : Type 0}
    → (A → Option String)
    → Formats
    → Conditions
    → ℕ
    → A
    → Option ℕ
    → Headers
    → Response
unfolding write_body
write_json marshal fmt c status v last hs =
    write_body fmt c status (marshal v) last (json_headers hs)

-- WriteJSONError, whose `encode` gives the JSON of the message and a newline
unfoldable pub write_json_error : (String → String) → ℕ → String → Headers → Response
write_json_error encode status message hs = record {
  status = status;
  headers = json_headers hs;
  body = some (encode message);
}
