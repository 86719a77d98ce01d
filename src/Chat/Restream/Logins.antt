-- ===== src/Chat/Restream/Logins.antt =====
-- restream.go: authorizations that were started and not finished.
use cuebooth.Prelude.{
  ℕ, ◌+◌, ==_self, subst, ◌%◌, ◌^◌, ◌≡◌, refl, sym, ◌≤◌, ◌<◌, zero, suc, Bool, true, false, ◌||◌,
  none, some, [], ◌∷◌, ltb, leb, leb→le, if◌then◌else◌, Bytes, length, arith, Bool-cases, inl, inr,
  ◌⊎◌,
}
use cuebooth.Bytes.{equal}
use cuebooth.Table.{Table, lookup, insert, delete, lookup-delete}
use cuebooth.Chat.Restream.{
  Restream, PendingLogin, unknown_state, Result, ok, err, Tokens, prune_pending, oldest_from,
  evict_oldest_pending, make_room, login_url, max_pending_logins, login_state_ttl,
}
use cuebooth.Chat.Restream.Exchanges.{
  Exchange, complete, exchanged, adopt, save, is_expired, post_token,
}

lookup-prune_pending :
    (state : Bytes) (now : ℕ) (t : Table PendingLogin)
    → lookup state t ≡ none
    → lookup state (prune_pending now t) ≡ none
unfolding lookup prune_pending
lookup-prune_pending state now [] h = refl
lookup-prune_pending state now ((j, login) ∷ t) h = elim (Bool-cases (equal j state)) [
  | inl here ↦ cc (rw here at h)
  | inr other ↦ elim (Bool-cases (ltb login.expires now)) [
    | inl old ↦ rw old (lookup-prune_pending state now t (rw other at h))
    | inr young ↦ rw (young, other) (lookup-prune_pending state now t (rw other at h))
  ]
]

pending-exchanged :
    (r : Restream) (x : Exchange) (answer : Result Tokens)
    → (exchanged r x answer).0.pending ≡ r.pending
unfolding exchanged adopt save
pending-exchanged r x (ok t) = ground arith
pending-exchanged r x (err e) = refl

pending-complete :
    (r : Restream) (code state : Bytes) (now : ℕ) (x : Exchange)
    → equal code [] ≡ false
    → lookup state (complete r code state now x).0.pending ≡ none
unfolding complete
pending-complete r code state now x h =
    let pruned = prune_pending now r.pending in
    elim (Bool-cases (is_expired (lookup state pruned) now)) [
      | inl old ↦ rw (h, old) (lookup-delete state pruned)
      | inr young ↦
          rw
            (
              h,
              young,
              pending-exchanged (record r { pending = delete state pruned }) x
                  (post_token x.received x.answer),
            )
            (lookup-delete state pruned)
    ]

-- A state that is not pending authorizes nothing.
complete_unknown :
    (r : Restream) (code state : Bytes) (now : ℕ) (x : Exchange)
    → equal code [] ≡ false
    → lookup state r.pending ≡ none
    → ((complete r code state now x).1 ≡ some unknown_state)
      × ((complete r code state now x).0.tok ≡ r.tok)
unfolding complete is_expired
complete_unknown r code state now x h gone =
    let gone' = lookup-prune_pending state now r.pending gone in rw (h, gone') ((refl, refl))

-- An authorization's state serves once: whatever became of a call of Complete that carried a code,
-- a second call with the same state, whatever its code and time, fails as unknown_state, and leaves
-- the credential as it was.
pub complete_once :
    (r : Restream) (code state : Bytes) (now : ℕ) (x : Exchange) (code_again : Bytes) (later : ℕ)
    (again : Exchange)
    → equal code [] ≡ false
    → equal code_again [] ≡ false
    → ((complete (complete r code state now x).0 code_again state later again).1
        ≡ some unknown_state)
      × ((complete (complete r code state now x).0 code_again state later again).0.tok
          ≡ (complete r code state now x).0.tok)
complete_once r code state now x code_again later again h h_again =
    complete_unknown (complete r code state now x).0 code_again state later again h_again
      (pending-complete r code state now x h)

equal_self : (s : Bytes) → equal s s ≡ true
equal_self [] = refl
equal_self (c ∷ s) = rw (==_self c) (equal_self s)

-- An entry of this name is there.
abbrev Has : Bytes → Table PendingLogin → Type 0
Has k [] = ⊥
Has k ((j, a) ∷ t) = (equal j k ≡ true) ⊎ Has k t

delete_le : (k : Bytes) (t : Table PendingLogin) → length (delete k t) ≤ length t
unfolding delete
delete_le k [] = ground arith
delete_le k ((j, a) ∷ t) = elim (Bool-cases (equal j k)) [
  | inl here ↦ let rest = delete_le k t in rw here (omega arith)
  | inr other ↦ let rest = delete_le k t in rw other (omega arith)
]

delete_lt : (k : Bytes) (t : Table PendingLogin) → Has k t → length (delete k t) < length t
unfolding delete
delete_lt k [] h = elim h [ ]
delete_lt k ((j, a) ∷ t) h = elim (Bool-cases (equal j k)) [
  | inl here ↦ let rest = delete_le k t in rw here (omega arith)
  | inr other ↦ elim h [
    | inl here ↦ cc
    | inr there ↦ let rest = delete_lt k t there in rw other (omega arith)
  ]
]

next_there :
    (oldest : Bytes) (found : PendingLogin) (state : Bytes) (login : PendingLogin)
    (t : Table PendingLogin) (is_older : Bool)
    → ((oldest_from state login t ≡ state) ⊎ Has (oldest_from state login t) t)
    → ((oldest_from oldest found t ≡ oldest) ⊎ Has (oldest_from oldest found t) t)
    → (oldest_from (if is_older then state else oldest) (if is_older then login else found) t
        ≡ oldest)
      ⊎ Has
          (oldest_from (if is_older then state else oldest) (if is_older then login else found) t)
          ((state, login) ∷ t)
next_there oldest found state login t true (inl same) kept =
    inr (inl (subst (λ k. equal state k ≡ true) (sym same) (equal_self state)))
next_there oldest found state login t true (inr there) kept = inr (inr there)
next_there oldest found state login t false taken (inl same) = inl same
next_there oldest found state login t false taken (inr there) = inr (inr there)

-- The name that the scan ends with is the one it began with, or an entry's.
oldest_there :
    (oldest : Bytes) (found : PendingLogin) (t : Table PendingLogin)
    → (oldest_from oldest found t ≡ oldest) ⊎ Has (oldest_from oldest found t) t
unfolding oldest_from
oldest_there oldest found [] = inl refl
oldest_there oldest found ((state, login) ∷ t) =
    next_there oldest found state login t (equal oldest [] || ltb login.seq found.seq)
      (oldest_there state login t) (oldest_there oldest found t)

evict_lt : (t : Table PendingLogin) → 0 < length t → length (evict_oldest_pending t) < length t
unfolding evict_oldest_pending oldest_from
evict_lt [] h = omega arith
evict_lt ((state, login) ∷ t) h = delete_lt _ _ (elim (oldest_there state login t) [
  | inl same ↦ inl (subst (λ k. equal state k ≡ true) (sym same) (equal_self state))
  | inr there ↦ inr there
])

make_room_lt :
    (fuel : ℕ) (t : Table PendingLogin)
    → length t ≤ fuel
    → length (make_room fuel t) < max_pending_logins
unfolding make_room
make_room_lt zero t h = omega arith
make_room_lt (suc fuel) t h = elim (Bool-cases (leb max_pending_logins (length t))) [
  | inl full ↦
      let many = leb→le max_pending_logins (length t) full in
      let less = evict_lt t (omega arith) in
      rw full (make_room_lt fuel (evict_oldest_pending t) (omega arith))
  | inr room ↦ rw room (ground (arith, room))
]

length-insert :
    (k : Bytes) (a : PendingLogin) (t : Table PendingLogin) → length (insert k a t) ≤ length t + 1
unfolding insert
length-insert k a [] = ground arith
length-insert k a ((j, b) ∷ t) = elim (Bool-cases (equal j k)) [
  | inl here ↦ rw here (omega arith)
  | inr other ↦ let rest = length-insert k a t in rw other (omega arith)
]

-- Starting an authorization leaves at most 64 of them started and unfinished, however many there
-- were.
pub login_url_bounded :
    (r : Restream) (state : Bytes) (now : ℕ)
    → length (login_url r state now).pending ≤ max_pending_logins
unfolding login_url
login_url_bounded r state now =
    let pruned = prune_pending now r.pending in
    let room = make_room_lt (length pruned) pruned (omega arith) in
    let n = (r.pending_seq + 1) % 2 ^ 64 in
    let login : PendingLogin = record { expires = now + login_state_ttl; seq = n } in
    let added = length-insert state login (make_room (length pruned) pruned) in omega arith
