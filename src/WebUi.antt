-- ===== src/WebUi.antt =====
-- server/internal/webui/webui.go: the bundled web client. The embedded files are a parameter, as are
-- SHA-256 and http.ServeContent; of a response the status, the file and the headers that name it are
-- kept. A path is text with its slashes.
pub mod Served
use cuebooth.Prelude.{
  ℕ, zero, suc, ◌+◌, ◌%◌, ◌/◌, Bool, true, false, not, ◌&&◌, ◌||◌, Option, none, some, List, [],
  ◌∷◌, ◌++◌, ◌==◌, ltb, if◌then◌else◌, Bytes,
}
use cuebooth.Bytes.{bytes, equal, split, to_lower}
use cuebooth.Table.{Table, insert}
use cuebooth.Table

-- What the source asks of an fs.FS: whether a name is there, and is a directory; whether it opens, and
-- whether what was opened can be looked at and read; the names that WalkDir visits, each with its
-- SHA-256, where it is a file that could be read.
pub record Files : Type 0 where
  pub stat : Bytes → Option Bool
  pub opens : Bytes → Bool
  pub reads : Bytes → Bool
  pub walked : List (Bytes × Option Bytes)

pub record Request : Type 0 where
  pub method : Bytes
  pub path : Bytes
  pub accept : Bytes

-- A file with its tag and its content type, either of which may be missing.
pub data Response : Type 0 where
  http_error : ℕ → Response
  missing_page : Response
  file : Bytes → Option Bytes → Option Bytes → Response

abbrev pub entry : Bytes
entry = bytes "index.html"

abbrev pub is_file : Option Bool → Bool
is_file (some false) = true
is_file _ = false

unfoldable pub bundled_in : Files → Bool
bundled_in files = is_file (files.stat entry)

-- hex.EncodeToString
abbrev pub hex_digit : ℕ → ℕ
hex_digit n = if ltb n 10 then 48 + n else 87 + n

unfoldable pub hex : Bytes → Bytes
hex [] = []
hex (b ∷ s) = hex_digit (b / 16) ∷ hex_digit (b % 16) ∷ hex s

-- `sum[:n]`
unfoldable pub first_bytes : ℕ → Bytes → Bytes
first_bytes zero s = []
first_bytes (suc n) [] = []
first_bytes (suc n) (b ∷ s) = b ∷ first_bytes n s

unfoldable pub etags_from : List (Bytes × Option Bytes) → Table Bytes → Table Bytes
etags_from [] tags = tags
etags_from ((name, none) ∷ rest) tags = etags_from rest tags
etags_from ((name, some sum) ∷ rest) tags =
    etags_from rest (insert name (34 ∷ hex (first_bytes 16 sum) ++ 34 ∷ []) tags)

unfoldable pub etags : Files → Table Bytes
etags files = etags_from files.walked []

-- path.Clean of a rooted path, as its segments: empty ones and `.` go, and `..` takes the one before
-- it along.
unfoldable pub drop_last : List Bytes → List Bytes
drop_last [] = []
drop_last (s ∷ []) = []
drop_last (s ∷ t ∷ rest) = s ∷ drop_last (t ∷ rest)

unfoldable pub clean_onto : List Bytes → List Bytes → List Bytes
clean_onto out [] = out
clean_onto out (s ∷ rest) =
    clean_onto
      (if equal s [] || equal s (bytes ".")
        then out
        else if equal s (bytes "..")
        then drop_last out
        else out ++ s ∷ [])
      rest

unfoldable pub join : List Bytes → Bytes
join [] = []
join (s ∷ []) = s
join (s ∷ t ∷ rest) = s ++ 47 ∷ join (t ∷ rest)

-- strings.TrimPrefix(path.Clean("/"+p), "/")
unfoldable pub clean_name : Bytes → Bytes
clean_name p = join (clean_onto [] (split 47 (47 ∷ p)))

-- A segment that starts with a dot.
abbrev pub is_hidden : Bytes → Bool
is_hidden [] = false
is_hidden (c ∷ s) = c == 46

unfoldable pub any_hidden : List Bytes → Bool
any_hidden [] = false
any_hidden (s ∷ rest) = if is_hidden s then true else any_hidden rest

unfoldable pub serveable : Files → Bytes → Bool
serveable files name = if any_hidden (split 47 name) then false else is_file (files.stat name)

abbrev pub starts_with : Bytes → Bytes → Bool
starts_with [] s = true
starts_with (c ∷ p) [] = false
starts_with (c ∷ p) (d ∷ s) = c == d && starts_with p s

-- strings.Contains
unfoldable pub has_text : Bytes → Bytes → Bool
has_text t [] = equal t []
has_text t (c ∷ s) = starts_with t (c ∷ s) || has_text t s

unfoldable pub accepts_html : Request → Bool
accepts_html r = equal r.accept [] || has_text (bytes "text/html") r.accept

-- path.Ext: from the last dot of the last segment on.
unfoldable pub ext_from : Option Bytes → Bytes → Bytes
ext_from none [] = []
ext_from (some e) [] = e
ext_from e (c ∷ s) = ext_from (if c == 46 then some (c ∷ s) else if c == 47 then none else e) s

unfoldable pub content_types : Table Bytes
content_types =
    (bytes ".html", bytes "text/html; charset=utf-8")
    ∷ (bytes ".js", bytes "text/javascript; charset=utf-8")
    ∷ (bytes ".mjs", bytes "text/javascript; charset=utf-8")
    ∷ (bytes ".json", bytes "application/json")
    ∷ (bytes ".wasm", bytes "application/wasm")
    ∷ (bytes ".css", bytes "text/css; charset=utf-8")
    ∷ (bytes ".png", bytes "image/png")
    ∷ (bytes ".jpg", bytes "image/jpeg")
    ∷ (bytes ".jpeg", bytes "image/jpeg")
    ∷ (bytes ".gif", bytes "image/gif")
    ∷ (bytes ".svg", bytes "image/svg+xml")
    ∷ (bytes ".ico", bytes "image/x-icon")
    ∷ (bytes ".otf", bytes "font/otf")
    ∷ (bytes ".ttf", bytes "font/ttf")
    ∷ (bytes ".woff", bytes "font/woff")
    ∷ (bytes ".woff2", bytes "font/woff2")
    ∷ (bytes ".txt", bytes "text/plain; charset=utf-8")
    ∷ (bytes ".bin", bytes "application/octet-stream")
    ∷ (bytes ".map", bytes "application/json")
    ∷ []

-- A header that is set where its value is not empty.
abbrev pub unless_empty : Bytes → Option Bytes
unless_empty [] = none
unless_empty (c ∷ s) = some (c ∷ s)

abbrev pub or_entry : Bytes → Bytes
or_entry name = if equal name [] || equal name (bytes ".") then entry else name

-- mime.TypeByExtension, which goes by the system's tables, is the parameter.
module _ (type_by_extension : Bytes → Bytes) where
  unfoldable pub content_type : Bytes → Bytes
  content_type name =
      let ext = to_lower (ext_from none name) in
      elim (Table.lookup ext content_types) [ some t ↦ t | none ↦ type_by_extension ext ]

  unfoldable pub serve : Files → Bytes → Option Bytes → Response
  serve files name tag =
      if not (files.opens name)
      then http_error 404
      else if not (files.reads name)
      then http_error 500
      else file name tag (unless_empty (content_type name))

  unfoldable pub handle_with : Files → Table Bytes → Request → Response
  handle_with files tags r =
      let name = or_entry (clean_name r.path) in
      if serveable files name
      then serve files name (Table.lookup name tags)
      else if accepts_html r
      then serve files entry (Table.lookup entry tags)
      else http_error 404

  unfoldable pub handler_from : Files → Request → Response
  handler_from files r =
      if not (equal r.method (bytes "GET")) && not (equal r.method (bytes "HEAD"))
      then http_error 405
      else if bundled_in files
      then handle_with files (etags files) r
      else missing_page
