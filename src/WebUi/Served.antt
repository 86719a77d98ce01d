-- ===== src/WebUi/Served.antt =====
-- webui.go: the files that are answered.
use cuebooth.Prelude.{
  ℕ, ◌≡◌, refl, sym, ap, ◌∙◌, subst, Bool, true, false, not, ◌&&◌, Option, List, [], ◌∷◌, ◌++◌,
  ◌==◌, if◌then◌else◌, Bytes, ==→eq, Bool-cases, inl, inr,
}
use mathlib.Core.List.{append_assoc, append-nil}
use cuebooth.Bytes.{bytes, equal, split}
use cuebooth.Bytes.Equal.{equal→eq}
use cuebooth.Table
use cuebooth.WebUi.{
  Files, Request, Response, http_error, missing_page, file, entry, is_file, bundled_in, etags,
  clean_onto, join, clean_name, any_hidden, serveable, accepts_html, serve, content_type,
  unless_empty, or_entry, handle_with, handler_from,
}

-- A regular file of the bundle that opens, with no segment that starts with a dot, and its tag.
pub record IsVisible (files : Files) (name : Bytes) (tag : Option Bytes) : Type 0 where
  pub regular : is_file (files.stat name) ≡ true
  pub opened : files.opens name ≡ true
  pub plain : any_hidden (split 47 name) ≡ false
  pub tagged : tag ≡ Table.lookup name (etags files)

abbrev pub any_blank : List Bytes → Bool
any_blank [] = false
any_blank (s ∷ rest) = if equal s [] then true else any_blank rest

-- split and join are inverse.
abbrev Parts : List Bytes → Type 0
Parts parts = (h : Bytes) × (t : List Bytes) × (parts ≡ h ∷ t)

split-Parts : (s : Bytes) → Parts (split 47 s)
unfolding split
split-Parts [] = ([], [], refl)
split-Parts (c ∷ s) = elim (Bool-cases (c == 47)) [
  | inl here ↦ ([], split 47 s, rw here refl)
  | inr other ↦ let (h, t, e) = split-Parts s in (c ∷ h, t, rw (other, e) refl)
]

join_longer : (c : ℕ) (h : Bytes) (t : List Bytes) → join ((c ∷ h) ∷ t) ≡ c ∷ join (h ∷ t)
unfolding join
join_longer c h [] = refl
join_longer c h (x ∷ t) = refl

join-split : (s : Bytes) → join (split 47 s) ≡ s
unfolding split join
join-split [] = refl
join-split (c ∷ s) =
    let (h, t, e) = split-Parts s in
    let rest : join (h ∷ t) ≡ s = sym (ap join e) ∙ join-split s in
    elim (Bool-cases (c == 47)) [
      | inl here ↦ rw (here, e, ==→eq c 47 here) (ap (λ x. 47 ∷ x) rest)
      | inr other ↦ rw (other, e) (join_longer c h t ∙ ap (λ x. c ∷ x) rest)
    ]

no_dots : (c : ℕ) (s rest : Bytes) → (c == 46) ≡ false → equal (c ∷ s) (46 ∷ rest) ≡ false
no_dots c s rest e = rw e refl

-- A path of plain segments is clean.
clean_plain :
    (out segments : List Bytes)
    → any_hidden segments ≡ false
    → any_blank segments ≡ false
    → clean_onto out segments ≡ out ++ segments
unfolding clean_onto any_hidden
clean_plain out [] h b = sym (append-nil out)
clean_plain out ([] ∷ rest) h b = cc
clean_plain out ((c ∷ s) ∷ rest) h b = elim (Bool-cases (c == 46)) [
  | inl dot ↦ cc (rw dot at h)
  | inr other ↦
      rw (no_dots c s [] other, no_dots c s (46 ∷ []) other)
        (clean_plain (out ++ (c ∷ s) ∷ []) rest (rw other at h) b
          ∙ append_assoc out ((c ∷ s) ∷ []) rest)
]

clean_name-slash :
    (name : Bytes)
    → any_hidden (split 47 name) ≡ false
    → any_blank (split 47 name) ≡ false
    → clean_name (47 ∷ name) ≡ name
unfolding clean_name split clean_onto
clean_name-slash name h b = ap join (clean_plain [] (split 47 name) h b) ∙ join-split name

serveable-parts :
    (files : Files) (name : Bytes)
    → serveable files name ≡ true
    → (any_hidden (split 47 name) ≡ false) × (is_file (files.stat name) ≡ true)
unfolding serveable
serveable-parts files name e = elim (Bool-cases (any_hidden (split 47 name))) [
  | inl hidden ↦ cc (rw hidden at e)
  | inr plain ↦ (plain, rw plain at e)
]

entry_plain : any_hidden (split 47 entry) ≡ false
unfolding any_hidden split
entry_plain = refl

-- The name of a file is not one that stands for the entry.
named :
    (name : Bytes)
    → any_hidden (split 47 name) ≡ false
    → any_blank (split 47 name) ≡ false
    → or_entry name ≡ name
unfolding split any_hidden
named [] h b = cc
named (c ∷ s) h b = elim (Bool-cases (equal (c ∷ s) (bytes "."))) [
  | inl dot ↦
      let hidden : any_hidden (split 47 (bytes ".")) ≡ false =
        subst (λ n. any_hidden (split 47 n) ≡ false) (equal→eq (c ∷ s) (bytes ".") dot) h in
      cc hidden
  | inr other ↦ rw other refl
]

-- A response that is a file is of one that is visible.
abbrev pub OnlyVisible : Files → Response → Type 0
OnlyVisible files (file name tag type) = IsVisible files name tag
OnlyVisible files (http_error code) = Unit {0}
OnlyVisible files missing_page = Unit {0}

module _ (type_by_extension : Bytes → Bytes) where
  serve-OnlyVisible :
      (files : Files) (name : Bytes)
      → is_file (files.stat name) ≡ true
      → any_hidden (split 47 name) ≡ false
      → OnlyVisible files (serve type_by_extension files name (Table.lookup name (etags files)))
  unfolding serve
  serve-OnlyVisible files name regular plain = elim (Bool-cases (files.opens name)) [
    | inr shut ↦ rw shut tt
    | inl opened ↦ elim (Bool-cases (files.reads name)) [
      | inr bad ↦ rw (opened, bad) tt
      | inl good ↦
          rw (opened, good)
            (record { regular = regular; opened = opened; plain = plain; tagged = refl })
    ]
  ]

  handled-OnlyVisible :
      (files : Files) (r : Request)
      → bundled_in files ≡ true
      → OnlyVisible files (handle_with type_by_extension files (etags files) r)
  unfolding handle_with bundled_in
  handled-OnlyVisible files r bundled =
      let name = or_entry (clean_name r.path) in
      elim (Bool-cases (serveable files name)) [
        | inl found ↦
            let (plain, regular) = serveable-parts files name found in
            rw found (serve-OnlyVisible files name regular plain)
        | inr absent ↦ elim (Bool-cases (accepts_html r)) [
          | inl page ↦ rw (absent, page) (serve-OnlyVisible files entry bundled entry_plain)
          | inr other ↦ rw (absent, other) tt
        ]
      ]

  -- Whatever the path of a request, with `..`, doubled slashes or dots anywhere, a file that is
  -- answered is a regular file of the bundle of whose name no segment starts with a dot, with the
  -- tag that was computed for that very name.
  pub handler_from-OnlyVisible :
      (files : Files) (r : Request) → OnlyVisible files (handler_from type_by_extension files r)
  unfolding handler_from
  handler_from-OnlyVisible files r =
      elim (Bool-cases
        (not (equal r.method (bytes "GET")) && not (equal r.method (bytes "HEAD")))) [
          | inl other ↦ rw other tt
          | inr served ↦ elim (Bool-cases (bundled_in files)) [
            | inl bundled ↦ rw (served, bundled) (handled-OnlyVisible files r bundled)
            | inr absent ↦ rw (served, absent) tt
          ]
        ]

  -- A GET of a slash and the name of a file of the bundle gets that file, with its tag and its content
  -- type, where no segment of the name is empty or starts with a dot and the file can be read.
  pub own_path_served :
      (files : Files) (name accept : Bytes)
      → bundled_in files ≡ true
      → serveable files name ≡ true
      → any_blank (split 47 name) ≡ false
      → files.opens name ≡ true
      → files.reads name ≡ true
      → handler_from type_by_extension files
          (record { method = bytes "GET"; path = 47 ∷ name; accept = accept })
        ≡ file name
            (Table.lookup name (etags files))
            (unless_empty (content_type type_by_extension name))
  unfolding handler_from handle_with serve
  own_path_served files name accept bundled found solid opened good =
      let (plain, regular) = serveable-parts files name found in
      rw (bundled, clean_name-slash name plain solid, named name plain solid, found, opened, good)
        refl
