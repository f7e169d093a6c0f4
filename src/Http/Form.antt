-- ===== src/Http/Form.antt =====
-- internal/transport/http/media.go: the form of `SendMediaHandler` and `pickMIME`. What
-- `ParseMultipartForm`, `FormFile` and `ReadAll` make of a body, which `MaxBytesReader` cuts off, is a
-- `FormBody`.
use whatsmeow_api.Prelude.{ℕ, String, not, ◌&&◌, List, ◌==◌, if◌then◌else◌, eqb}
use whatsmeow_api.Service.Send.{SendMediaRequest}
use Prim.Native.Char.{code}

-- `content_type` is the header of the file's part, or empty where it has none.
pub record MediaForm : Type 0 where
  pub chat_jid : String
  pub kind : String
  pub caption : String
  pub filename : String
  pub content_type : String
  pub body : List ℕ

pub data FormBody : Type 0 where
  not_multipart : String → FormBody
  without_file : FormBody
  unreadable : String → FormBody
  form : MediaForm → FormBody

-- `filepath.Ext`: from the last dot of the last element of a path; `found` is what was found so far.
abbrev next_extension : ℕ → String → String → String
next_extension c here found = if eqb c b'.' then here else if eqb c b'/' then "" else found

unfoldable pub extension : String → String → String
extension found String.[] = found
extension found (String.◌∷◌ c s) = extension (next_extension (code c) (String.◌∷◌ c s) found) s

abbrev pub or_octets : String → String
or_octets t = if t == "" then "application/octet-stream" else t

unfoldable pub pick_mime : (String → String) → String → String → String
unfolding extension
pick_mime types content_type filename =
    if not (content_type == "") && not (content_type == "application/octet-stream")
    then content_type
    else if extension "" filename == ""
    then "application/octet-stream"
    else or_octets (types (extension "" filename))

-- The request of a form, with a MIME type.
abbrev pub media_of : String → MediaForm → SendMediaRequest
media_of mime f = record {
  chat_jid = f.chat_jid;
  kind = f.kind;
  caption = f.caption;
  filename = f.filename;
  mime = mime;
  body = f.body;
}
