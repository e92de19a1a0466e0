-- ===== src/Background/Sync/Mime.antt =====
-- internal/background/scheduler.go: extractMimeType. mime.TypeByExtension, whose tables are the
-- system's, is a parameter.
use lumescope.Prelude.{
  String, ◌≡◌, refl, false, Option, none, some, ◌==◌, string_eq, nat_beq, if◌then◌else◌, Bool-cases,
  inl, inr, if-has,
}
use lumescope.Prelude.Text.{before, contains_char, trim_space, contains-before, contains-trim_space}
use lumescope.Db.Types.{Json}
use Prim.Native.Char.{code}

-- the decoded map: its entry file_name, if that is a text, and all of it as JSON
pub record Decoded : Type 0 where
  pub file_name : Option String
  pub json : Json

abbrev or_else : Option String → String → String
or_else none s = s
or_else (some t) s = t

-- the rest from the last dot behind the last slash
find_ext : String → Option String
find_ext String.[] = none
find_ext (String.◌∷◌ c s) =
    let rest = find_ext s in
    if contains_char b'/' s
    then rest
    else if contains_char b'.' s
    then rest
    else if nat_beq (code c) b'.'
    then some (String.◌∷◌ c s)
    else none

-- filepath.Ext
unfoldable pub extension : String → String
unfolding find_ext
extension name = or_else (find_ext name) ""

abbrev pub octet_stream : String
octet_stream = "application/octet-stream"

strip_parameters : String → String
strip_parameters t = if contains_char b';' t then trim_space (before b';' t) else t

mime_of_name : (String → String) → String → String
unfolding extension strip_parameters
mime_of_name type_by_extension file_name =
    let ext = extension file_name in
    let t = type_by_extension ext in
    if file_name == ""
    then octet_stream
    else if ext == ""
    then octet_stream
    else if t == ""
    then octet_stream
    else strip_parameters t

mime_of : (String → String) → Option String → String
unfolding mime_of_name
mime_of type_by_extension none = octet_stream
mime_of type_by_extension (some file_name) = mime_of_name type_by_extension file_name

unfoldable pub extract_mime_type : (String → String) → Option Decoded → String
unfolding mime_of
extract_mime_type type_by_extension none = octet_stream
extract_mime_type type_by_extension (some d) = mime_of type_by_extension d.file_name

strip_parameters_lem : (t : String) → contains_char b';' (strip_parameters t) ≡ false
unfolding strip_parameters
strip_parameters_lem t = elim (Bool-cases (contains_char b';' t)) [
  | inl e ↦ rw e (contains-trim_space b';' (before b';' t) (contains-before b';' t))
  | inr e ↦ rw (e, e)
]

mime_of_lem :
    (table : String → String) (name : Option String)
    → contains_char b';' (mime_of table name) ≡ false
unfolding mime_of mime_of_name
mime_of_lem table none = refl
mime_of_lem table (some name) =
    let plain = if-has (λ t. contains_char b';' t ≡ false) in
    plain (name == "") octet_stream _ (λ _. refl)
      (λ _.
        plain (extension name == "") octet_stream _ (λ _. refl)
          (λ _.
            plain (table (extension name) == "") octet_stream _ (λ _. refl)
              (λ _. strip_parameters_lem (table (extension name)))))

-- Whatever the metadata and the system's tables, the MIME type of an action has no parameters: no
-- semicolon stands in it.
pub extract_mime_type-plain :
    (type_by_extension : String → String) (decoded : Option Decoded)
    → contains_char b';' (extract_mime_type type_by_extension decoded) ≡ false
unfolding extract_mime_type
extract_mime_type-plain table none = refl
extract_mime_type-plain table (some d) = mime_of_lem table d.file_name
