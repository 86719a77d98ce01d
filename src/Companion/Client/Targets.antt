-- ===== src/Companion/Client/Targets.antt =====
-- client.go: what the requests of a call name.
use cuebooth.Prelude.{
  ℕ, ◌≡◌, refl, ◌&&◌, Option, none, some, List, [], ◌∷◌, ◌++◌, map, ◌==◌, if◌then◌else◌, Bytes,
  arith, ==_self,
}
use cuebooth.Bytes.{bytes, equal, split, digits, print}
use cuebooth.Bytes.Decimal.{AllDigits, print-AllDigits, digits-print}
use cuebooth.Bytes.Split.{Without, split-Without, split-append}
use cuebooth.Companion.Location.{Location}
use cuebooth.Companion.Client.{post, Outcome, Round, Result, ok, err, do_request}
use cuebooth.Companion.Client.Attempts.{
  IsRefused, AllButLast, LastSucceeds, post_never_doubled, do_request-LastSucceeds,
}
use cuebooth.Companion.Client.Calls.{
  Client, Request, CallResult, answered, empty_name, failed, returned, send_request, Verb, press,
  down, up, verb_name, location_path, actuation, actuate,
}

-- What is left of a URL behind a prefix.
abbrev without_prefix : Bytes → Bytes → Option Bytes
without_prefix [] url = some url
without_prefix (b ∷ base) [] = none
without_prefix (b ∷ base) (c ∷ url) = if b == c then without_prefix base url else none

abbrev place : Option ℕ → Option ℕ → Option ℕ → Option Location
place (some p) (some r) (some c) = some (record { page = p; row = r; column = c })
place _ _ _ = none

-- A button's address and the verb, read from a path as Companion's documentation gives it.
read_path : List Bytes → Option (Option Location × Bytes)
read_path (e ∷ api ∷ kind ∷ p ∷ r ∷ c ∷ verb ∷ []) =
    if equal e [] && (equal api (bytes "api") && equal kind (bytes "location"))
    then some (place (digits 0 p) (digits 0 r) (digits 0 c), verb)
    else none
read_path _ = none

abbrev read_rest : Option Bytes → Option (Option Location × Bytes)
read_rest none = none
read_rest (some path) = read_path (split 47 path)

-- The button and the verb that a request to the server at `base` names.
pub target_of : Bytes → Request → Option (Option Location × Bytes)
target_of base q = read_rest (without_prefix base q.url)

without_prefix-append : (base path : Bytes) → without_prefix base (base ++ path) ≡ some path
without_prefix-append [] path = refl
without_prefix-append (b ∷ base) path = rw (==_self b) (without_prefix-append base path)

print-Without : (n : ℕ) → Without 47 (print n)
print-Without n = plain (print n) (print-AllDigits n)
  where
    plain : (s : Bytes) → AllDigits s → Without 47 s
    plain [] a = tt
    plain (c ∷ s) a = (ground (arith, a.0), plain s a.1)

split-location_path :
    (l : Location) (verb : Bytes)
    → Without 47 verb
    → split 47 (location_path l verb)
      ≡ []
        ∷ bytes "api"
        ∷ bytes "location"
        ∷ print l.page
        ∷ print l.row
        ∷ print l.column
        ∷ verb
        ∷ []
unfolding split
split-location_path l verb w =
    rw
      (
        split-append 47 (print l.page) (print l.row ++ 47 ∷ (print l.column ++ 47 ∷ verb))
            (print-Without l.page),
        split-append 47 (print l.row) (print l.column ++ 47 ∷ verb) (print-Without l.row),
        split-append 47 (print l.column) verb (print-Without l.column),
        split-Without 47 verb w,
      )
      refl

verb-Without : (v : Verb) → Without 47 (verb_name v)
verb-Without press = (refl, (refl, (refl, (refl, (refl, tt)))))
verb-Without down = (refl, (refl, (refl, (refl, tt))))
verb-Without up = (refl, (refl, tt))

target_of-actuation :
    (c : Client) (l : Location) (v : Verb)
    → target_of c.base_url (actuation c l v) ≡ some (some l, verb_name v)
unfolding target_of read_path
target_of-actuation c l v =
    rw
      (
        without_prefix-append c.base_url (location_path l (verb_name v)),
        split-location_path l (verb_name v) (verb-Without v),
        digits-print l.page,
        digits-print l.row,
        digits-print l.column,
      )
      refl

-- What became of the requests of a call.
abbrev pub met : List (Request × Outcome) → List Outcome
met [] = []
met ((q, o) ∷ sent) = o ∷ met sent

abbrev pub EveryRequest : (Request → Type 0) → List (Request × Outcome) → Type 0
EveryRequest P [] = Unit
EveryRequest P ((q, o) ∷ sent) = P q × EveryRequest P sent

met_same : (q : Request) (os : List Outcome) → met (map (λ (o : Outcome). (q, o)) os) ≡ os
met_same q [] = refl
met_same q (o ∷ os) = rw (met_same q os) refl

every_same :
    (P : Request → Type 0) (q : Request) (os : List Outcome)
    → P q
    → EveryRequest P (map (λ (o : Outcome). (q, o)) os)
every_same P q [] p = tt
every_same P q (o ∷ os) p = (p, every_same P q os p)

-- A call that succeeded has sent a last request that met a 2xx status.
abbrev pub EndsWell : CallResult → List Outcome → Type 0
EndsWell (answered body) sent = LastSucceeds sent
EndsWell empty_name sent = Unit
EndsWell (failed e) sent = Unit

returned-EndsWell :
    (r : Result Bytes) (sent : List Outcome)
    → ((body : Bytes) → r ≡ ok body → LastSucceeds sent)
    → EndsWell (returned r) sent
returned-EndsWell (ok body) sent h = h body refl
returned-EndsWell (err e) sent h = tt

ends_well :
    (max_retries : ℕ) (rounds : ℕ → Round) (sent : List Outcome)
    → sent ≡ (do_request max_retries post rounds).0
    → EndsWell (returned (do_request max_retries post rounds).1) sent
ends_well max_retries rounds sent same =
    returned-EndsWell (do_request max_retries post rounds).1 sent
      (λ body h. rw same (do_request-LastSucceeds max_retries post rounds body h))

-- Each request that Press, PressDown or PressUp sends is a POST whose path names exactly the button
-- and the verb; every one but the last was answered with a 5xx or a 429; and if the call succeeds,
-- the last was answered with a 2xx.
pub actuate_exact :
    (c : Client) (l : Location) (v : Verb) (rounds : ℕ → Round)
    → EveryRequest
        (λ q. (q.method ≡ post) × (target_of c.base_url q ≡ some (some l, verb_name v)))
        (actuate c l v rounds).0
      × AllButLast IsRefused (met (actuate c l v rounds).0)
      × EndsWell (actuate c l v rounds).1 (met (actuate c l v rounds).0)
unfolding actuate send_request
actuate_exact c l v rounds =
    let run = do_request c.max_retries post rounds in
    let same = met_same (actuation c l v) run.0 in
    (
      every_same _ (actuation c l v) run.0 (refl, target_of-actuation c l v),
      rw same (post_never_doubled c.max_retries rounds),
      ends_well c.max_retries rounds (met (actuate c l v rounds).0) same,
    )
