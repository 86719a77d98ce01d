-- ===== src/Tests/Site.antt =====
-- A bundle of two files, with a hidden one beside them.
use cuebooth.Prelude.{◌≡◌, refl, true, false, ◌||◌, none, some, [], ◌∷◌, if◌then◌else◌, Bytes}
use cuebooth.Bytes.{bytes, equal, split}
use cuebooth.Table
use cuebooth.WebUi.{
  Files, Request, file, bundled_in, etags, any_hidden, serveable, content_type, unless_empty,
  handler_from,
}
use cuebooth.WebUi.Served.{OnlyVisible, any_blank, handler_from-OnlyVisible, own_path_served}

abbrev files : Files
files = record {
  stat = λ name.
      if equal name (bytes "index.html")
        || equal name (bytes "assets/app.js")
        || equal name (bytes ".env")
      then some false
      else if equal name (bytes "assets")
      then some true
      else none;
  opens = λ name. true;
  reads = λ name. true;
  walked = (bytes "index.html", some (1 ∷ 255 ∷ [])) ∷ (bytes "assets", none) ∷ [];
}

abbrev no_types : Bytes → Bytes
no_types ext = []

abbrev hidden_request : Request
hidden_request = record {
  method = bytes "GET";
  path = bytes "/assets/../.env";
  accept = bytes "text/html,*/*";
}

handler_from-OnlyVisible_example : OnlyVisible files (handler_from no_types files hidden_request)
handler_from-OnlyVisible_example = handler_from-OnlyVisible no_types files hidden_request

bundled : bundled_in files ≡ true
unfolding bundled_in
bundled = refl

found : serveable files (bytes "assets/app.js") ≡ true
unfolding serveable any_hidden split
found = refl

solid : any_blank (split 47 (bytes "assets/app.js")) ≡ false
unfolding split
solid = refl

own_path_served_example :
    handler_from no_types files
      (record { method = bytes "GET"; path = bytes "/assets/app.js"; accept = [] })
    ≡ file
        (bytes "assets/app.js")
        (Table.lookup (bytes "assets/app.js") (etags files))
        (unless_empty (content_type no_types (bytes "assets/app.js")))
own_path_served_example =
    own_path_served no_types files (bytes "assets/app.js") [] bundled found solid refl refl
