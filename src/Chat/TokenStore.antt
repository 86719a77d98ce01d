-- ===== src/Chat/TokenStore.antt =====
-- server/internal/chat/tokenstore.go: the token file, on a disk that can lose power. The encoding and
-- the decoding of the credential (encoding/json) are arguments; so is what each call of the operating
-- system answers. File modes are left out. What a crash leaves of a file that was not synced is any
-- text, and a directory that was not synced may fall back to an entry that it had before.
pub mod Crash
use cuebooth.Prelude.{
  ℕ, ◌≡◌, Bool, true, false, not, ◌&&◌, Option, none, some, List, [], ◌∷◌, ◌++◌, if◌then◌else◌,
  Bytes, ◌⊎◌,
}
use cuebooth.Bytes.{equal}
use cuebooth.Chat.Restream.{Tokens, no_tokens}

pub record File : Type 0 where
  pub content : Bytes
  pub is_synced : Bool

-- The token file's entry in its directory, the entries that a crash may bring back, and the
-- temporary file.
pub record Disk : Type 0 where
  pub target : Option File
  pub reverts : List (Option File)
  pub temp : Option File

pub data LoadError : Type 0 where
  unreadable unparsable : LoadError

pub data Loaded : Type 0 where
  ok : Tokens → Loaded
  failed : LoadError → Loaded

-- What os.ReadFile answers.
pub data Read : Type 0 where
  missing denied : Read
  contents : Bytes → Read

unfoldable pub parsed : Option Tokens → Loaded
parsed none = failed unparsable
parsed (some t) = ok t

-- load, with the store's path and json.Unmarshal.
unfoldable pub load : (Bytes → Option Tokens) → Bytes → Read → Loaded
load decode path r = if equal path [] then ok no_tokens else elim r [
  | missing ↦ ok no_tokens
  | denied ↦ failed unreadable
  | contents text ↦ parsed (decode text)
]

pub data SaveError : Type 0 where
  encode_failed mkdir_failed create_failed chmod_failed write_failed sync_failed : SaveError
  close_failed rename_failed : SaveError

-- Whether each call succeeds, and what an interrupted write has put into the file.
pub record Calls : Type 0 where
  pub makes_dir : Bool
  pub creates : Bool
  pub chmods : Bool
  pub writes : Bool
  pub partial : Bytes
  pub syncs : Bool
  pub closes : Bool
  pub renames : Bool
  pub opens_dir : Bool
  pub syncs_dir : Bool
  pub removes : Bool

-- The disks that a save passes through, in order, the last of them, and its error.
pub record Saved : Type 0 where
  pub passed : List Disk
  pub last : Disk
  pub error : Option SaveError

abbrev pub write_temp : Bytes → Disk → Disk
write_temp text d = record d { temp = some (record { content = text; is_synced = false }) }

abbrev pub sync_temp : Bytes → Disk → Disk
sync_temp text d = record d { temp = some (record { content = text; is_synced = true }) }

abbrev pub rename : Disk → Disk
rename d = record { target = d.temp; reverts = d.target ∷ d.reverts; temp = none }

-- The deferred os.Remove of the temporary file.
abbrev pub remove_temp : Bool → Disk → Disk
remove_temp removes d = if removes then record d { temp = none } else d

abbrev pub sync_dir : Disk → Disk
sync_dir d = record d { reverts = [] }

-- A return with an error, after the disks that were passed.
abbrev pub abort : Calls → List Disk → Disk → SaveError → Saved
abort c before d e = record {
  passed = before ++ d ∷ remove_temp c.removes d ∷ [];
  last = remove_temp c.removes d;
  error = some e;
}

abbrev pub is_dir_synced : Calls → Bool
is_dir_synced c = c.opens_dir && c.syncs_dir

-- From the rename on.
unfoldable pub publish : Calls → List Disk → Disk → Saved
publish c before d =
    if not c.renames
    then abort c before d rename_failed
    else let after = if is_dir_synced c then sync_dir (rename d) else rename d in
      record { passed = before ++ d ∷ rename d ∷ after ∷ []; last = after; error = none }

-- From the write into the temporary file `d` on.
unfoldable pub fill : Calls → Bytes → Disk → Disk → Saved
unfolding publish
fill c text d0 d =
    if not c.writes
    then abort c (d0 ∷ d ∷ []) (write_temp c.partial d) write_failed
    else let written = write_temp text d in
      if not c.syncs
      then abort c (d0 ∷ d ∷ []) written sync_failed
      else let synced = sync_temp text d in
        if not c.closes
        then abort c (d0 ∷ d ∷ written ∷ []) synced close_failed
        else publish c (d0 ∷ d ∷ written ∷ []) synced

-- save, of the text that json.MarshalIndent gives.
unfoldable pub save : Bytes → Calls → Option Bytes → Disk → Saved
unfolding fill
save path c encoded d =
    if equal path [] then record { passed = d ∷ []; last = d; error = none } else elim encoded [
      | none ↦ record { passed = d ∷ []; last = d; error = some encode_failed }
      | some text ↦
          if not c.makes_dir
          then record { passed = d ∷ []; last = d; error = some mkdir_failed }
          else if not c.creates
          then record { passed = d ∷ []; last = d; error = some create_failed }
          else let made = write_temp [] d in
            if not c.chmods then abort c (d ∷ []) made chmod_failed else fill c text d made
    ]
