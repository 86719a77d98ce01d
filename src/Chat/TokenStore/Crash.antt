-- ===== src/Chat/TokenStore/Crash.antt =====
-- tokenstore.go: what a crash in the middle of a save leaves of the credential.
use cuebooth.Prelude.{
  ◌≡◌, refl, sym, ap, subst, Bool, true, false, Option, none, some, List, [], ◌∷◌, Bytes, ◌⊎◌, inl,
  inr, arith, Bool-cases,
}
use cuebooth.Bytes.{equal}
use cuebooth.Chat.Restream.{Tokens}
use cuebooth.Chat.TokenStore.{
  File, Disk, Calls, save, fill, publish, load, ok, Read, missing, contents, parsed, rename,
  write_temp, sync_temp, sync_dir, remove_temp, is_dir_synced,
}

-- The text of the file behind an entry after a crash; none where there is no file.
abbrev pub Leaves : Option File → Option Bytes → Type 0
Leaves none c = c ≡ none
Leaves (some f) none = ⊥
Leaves (some f) (some text) = f.is_synced ≡ true → text ≡ f.content

abbrev pub SomeLeaves : List (Option File) → Option Bytes → Type 0
SomeLeaves [] c = ⊥
SomeLeaves (e ∷ es) c = Leaves e c ⊎ SomeLeaves es c

-- What the token file can hold after a crash.
abbrev pub Survives : Disk → Option Bytes → Type 0
Survives d c = SomeLeaves (d.target ∷ d.reverts) c

abbrev pub Every : (Disk → Type 0) → List Disk → Type 0
Every P [] = Unit
Every P (d ∷ ds) = P d × Every P ds

-- The disk is one of those that a save passes through.
abbrev pub Visits : Disk → List Disk → Type 0
Visits at [] = ⊥
Visits at (d ∷ ds) = (at ≡ d) ⊎ Visits at ds

-- A crash there leaves what one before the save could leave, or the whole of the new text.
abbrev pub OldOrNew : Disk → Bytes → Disk → Type 0
OldOrNew d text at = (c : Option Bytes) → Survives at c → Survives d c ⊎ (c ≡ some text)

module _ (d : Disk) (text : Bytes) where
  renamed : Disk
  renamed = rename (sync_temp text d)

  old : OldOrNew d text d
  old c h = inl h

  new_entry :
      (c : Option Bytes)
      → Leaves (some (record { content = text; is_synced = true })) c
      → c ≡ some text
  new_entry none h = absurd h
  new_entry (some t) h = ap some (h refl)

  renamed-OldOrNew : OldOrNew d text renamed
  unfolding renamed
  renamed-OldOrNew c (inl h) = inr (new_entry c h)
  renamed-OldOrNew c (inr h) = inl h

  only_new : (c : Option Bytes) → Survives (sync_dir renamed) c → c ≡ some text
  unfolding renamed
  only_new c (inl h) = new_entry c h
  only_new c (inr h) = absurd h

  sync_dir-OldOrNew : OldOrNew d text (sync_dir renamed)
  sync_dir-OldOrNew c h = inr (only_new c h)

  removed-OldOrNew :
      (b : Bool) (at : Disk) → OldOrNew d text at → OldOrNew d text (remove_temp b at)
  removed-OldOrNew true at h = h
  removed-OldOrNew false at h = h

  publish-OldOrNew :
      (c : Calls)
      → Every
          (OldOrNew d text)
          (publish c (d ∷ write_temp [] d ∷ write_temp text d ∷ []) (sync_temp text d)).passed
  unfolding publish renamed
  publish-OldOrNew c = elim (Bool-cases c.renames) [
    | inl e ↦ rw e (elim (Bool-cases (is_dir_synced c)) [
      | inl y ↦ rw y ((old, (old, (old, (old, (renamed-OldOrNew, (sync_dir-OldOrNew, tt)))))))
      | inr n ↦ rw n ((old, (old, (old, (old, (renamed-OldOrNew, (renamed-OldOrNew, tt)))))))
    ])
    | inr e ↦ rw e ((old, (old, (old, (old, (removed-OldOrNew c.removes _ old, tt))))))
  ]

  fill-OldOrNew : (c : Calls) → Every (OldOrNew d text) (fill c text d (write_temp [] d)).passed
  unfolding fill
  fill-OldOrNew c = elim (Bool-cases c.writes) [
    | inr e ↦ rw e ((old, (old, (old, (removed-OldOrNew c.removes _ old, tt)))))
    | inl e ↦ rw e (elim (Bool-cases c.syncs) [
      | inr e ↦ rw e ((old, (old, (old, (removed-OldOrNew c.removes _ old, tt)))))
      | inl e ↦ rw e (elim (Bool-cases c.closes) [
        | inr e ↦ rw e ((old, (old, (old, (old, (removed-OldOrNew c.removes _ old, tt))))))
        | inl e ↦ rw e (publish-OldOrNew c)
      ])
    ])
  ]

  passed-OldOrNew :
      (path : Bytes) (c : Calls) → Every (OldOrNew d text) (save path c (some text) d).passed
  unfolding save
  passed-OldOrNew path c = elim (Bool-cases (equal path [])) [
    | inl e ↦ rw e ((old, tt))
    | inr e ↦ rw e (elim (Bool-cases c.makes_dir) [
      | inr e ↦ rw e ((old, tt))
      | inl e ↦ rw e (elim (Bool-cases c.creates) [
        | inr e ↦ rw e ((old, tt))
        | inl e ↦ rw e (elim (Bool-cases c.chmods) [
          | inr e ↦ rw e ((old, (old, (removed-OldOrNew c.removes _ old, tt))))
          | inl e ↦ rw e (fill-OldOrNew c)
        ])
      ])
    ])
  ]

  at_each :
      (at : Disk) (ds : List Disk) → Visits at ds → Every (OldOrNew d text) ds → OldOrNew d text at
  at_each at [] v h = absurd v
  at_each at (e ∷ ds) (inl same) h = subst (OldOrNew d text) (sym same) h.0
  at_each at (e ∷ ds) (inr v) h = at_each at ds v h.1

  -- Whatever call of a save fails and wherever on its way the power goes, the token file then holds
  -- what it could have held without the save, or the whole of the new text.
  pub crash_safe :
      (path : Bytes) (c : Calls) (at : Disk) (left : Option Bytes)
      → Visits at (save path c (some text) d).passed
      → Survives at left
      → Survives d left ⊎ (left ≡ some text)
  crash_safe path c at left v h =
      at_each at (save path c (some text) d).passed v (passed-OldOrNew path c) left h

  -- A save that reports no error has gone all the way.
  saved :
      (path : Bytes) (c : Calls)
      → equal path [] ≡ false
      → (save path c (some text) d).error ≡ none
      → is_dir_synced c ≡ true
      → (save path c (some text) d).last ≡ sync_dir renamed
  unfolding save fill publish renamed
  saved path c named h y = ground arith

-- What load finds of the file that a crash left.
abbrev pub found : Option Bytes → Read
found none = missing
found (some text) = contents text

module _ (encode : Tokens → Bytes) (decode : Bytes → Option Tokens) (d : Disk) (path : Bytes) where
  -- If the decoding reads back what the encoding of a credential wrote, and the credential was saved
  -- with no error and with the directory synced, then after a crash the token file loads as that
  -- credential.
  pub save-load :
      (t : Tokens) (c : Calls) (left : Option Bytes)
      → decode (encode t) ≡ some t
      → equal path [] ≡ false
      → (save path c (some (encode t)) d).error ≡ none
      → is_dir_synced c ≡ true
      → Survives (save path c (some (encode t)) d).last left
      → load decode path (found left) ≡ ok t
  unfolding load parsed
  save-load t c left round named done synced h =
      let at = saved d (encode t) path c named done synced in
      let kept = only_new d (encode t) left (subst (λ x. Survives x left) at h) in
      rw (kept, named, round) refl
