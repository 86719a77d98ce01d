-- ===== src/Api/RateLimit/Budget.antt =====
-- What the limiter of ratelimit.go permits over a stretch of calls.
use native.Mathlib.Nat.{div-mul-le_self, mul-le-mul_right, add-mul, min-le_left, le-div_iff_mul-le}
use cuebooth.Prelude.{
  ℕ, ◌+◌, ◌-◌, ◌*◌, ◌/◌, ◌≤◌, ◌<◌, min, ◌≡◌, refl, inl, inr, Bool, true, false, List, [], ◌∷◌,
  arith, leb, Bool-cases, ◌==◌, ap, ◌∙◌,
}
use cuebooth.Api.RateLimit.{RateLimiter, new_rate_limiter, start, refill, spend, allow}

-- The bucket is never over its burst, its clock has started and is not ahead of the caller's.
pub record IsValid (l : RateLimiter) (now : ℕ) : Type 0 where
  pub interval_pos : 0 < l.interval
  pub tokens_le : l.tokens ≤ l.burst
  pub started : 0 < l.last
  pub last_le : l.last ≤ now

-- What a refill keeps: its credit in nanoseconds is paid for by the clock that it moves.
abbrev pub Paid : RateLimiter → RateLimiter → ℕ → Type 0
Paid l l' now =
    IsValid l' now
    × (l'.interval ≡ l.interval)
    × (l'.burst ≡ l.burst)
    × (l'.tokens * l.interval + l.last ≤ l.tokens * l.interval + l'.last)

credit-le : (t g b i : ℕ) → min (t + g) b * i ≤ t * i + g * i
credit-le t g b i =
    omega
      (arith, add-mul t g i, mul-le-mul_right {m = min (t + g) b} {n = t + g} i (min-le_left _ _))

refill-Paid : (l : RateLimiter) (now : ℕ) → IsValid l now → Paid l (refill l now) now
unfolding refill
refill-Paid l now v = elim (Bool-cases (leb l.interval (now - l.last))) [
  | inl due ↦
      let whole = div-mul-le_self (now - l.last) l.interval in
      let credit = credit-le l.tokens ((now - l.last) / l.interval) l.burst l.interval in
      rw due (
        (
          record {
            interval_pos = v.interval_pos;
            tokens_le = omega arith;
            started = omega arith;
            last_le = omega arith;
          },
          refl,
          refl,
          omega arith,
        ))
  | inr early ↦ rw early (v, refl, refl, omega arith)
]

-- A granted call costs one interval of credit.
abbrev pub cost : Bool → ℕ → ℕ
cost true i = i
cost false i = 0

cost-spend : (l : RateLimiter) (i : ℕ) → cost (spend l).1 i + (spend l).0.tokens * i ≤ l.tokens * i
unfolding spend
cost-spend l i = elim (Bool-cases (l.tokens == 0)) [
  | inl empty ↦ rw empty (omega arith)
  | inr more ↦
      let split : l.tokens ≡ 1 + (l.tokens - 1) = ground arith in
      rw more (omega (arith, ap (λ (t : ℕ). t * i) split, add-mul 1 (l.tokens - 1) i))
]

-- What one call keeps.
abbrev pub Charged : RateLimiter → RateLimiter × Bool → ℕ → Type 0
Charged l r now =
    IsValid r.0 now
    × (r.0.interval ≡ l.interval)
    × (r.0.burst ≡ l.burst)
    × (cost r.1 l.interval + r.0.tokens * l.interval + l.last ≤ l.tokens * l.interval + r.0.last)

spend-IsValid :
    (l : RateLimiter) (now : ℕ)
    → IsValid l now
    → IsValid (spend l).0 now
      × ((spend l).0.interval ≡ l.interval)
      × ((spend l).0.burst ≡ l.burst)
      × ((spend l).0.last ≡ l.last)
unfolding spend
spend-IsValid l now v = ground arith

start_running : (l : RateLimiter) (now : ℕ) → 0 < l.last → start l now ≡ l
unfolding start
start_running l now h = ground arith

pub allow-Charged : (l : RateLimiter) (now : ℕ) → IsValid l now → Charged l (allow l now) now
unfolding allow
allow-Charged l now v =
    let r = refill-Paid l now v in
    let s = spend-IsValid (refill l now) now r.0 in
    let c = cost-spend (refill l now) l.interval in
    rw (start_running l now v.started) ((s.0, s.1 ∙ r.1, s.2 ∙ r.2, omega arith))

later : {l : RateLimiter} {t : ℕ} (now : ℕ) → IsValid l t → t ≤ now → IsValid l now
later now v h = record {
  interval_pos = v.interval_pos;
  tokens_le = v.tokens_le;
  started = v.started;
  last_le = omega arith;
}

-- The time that the calls cost, each granted one an interval, and the limiter after them.
pub run : RateLimiter → List ℕ → RateLimiter × ℕ
run l [] = (l, 0)
run l (now ∷ rest) =
    let (l', granted) = allow l now in
    let (l'', total) = run l' rest in (l'', cost granted 1 + total)

abbrev pub IsOrdered : ℕ → List ℕ → Type 0
IsOrdered t [] = Unit {0}
IsOrdered t (now ∷ rest) = (t ≤ now) × IsOrdered now rest

abbrev pub last_call : ℕ → List ℕ → ℕ
last_call t [] = t
last_call t (now ∷ rest) = last_call now rest

cost-mul : (b : Bool) (i : ℕ) → cost b 1 * i ≡ cost b i
cost-mul true i = omega arith
cost-mul false i = omega arith

run_budget :
    (l : RateLimiter) (t : ℕ) (calls : List ℕ)
    → IsValid l t
    → IsOrdered t calls
    → IsValid (run l calls).0 (last_call t calls)
      × ((run l calls).1 * l.interval + (run l calls).0.tokens * l.interval + l.last
          ≤ l.tokens * l.interval + (run l calls).0.last)
unfolding run
run_budget l t [] v o = (v, omega arith)
run_budget l t (now ∷ rest) v o =
    let one = allow-Charged l now (later now v o.0) in
    let more = run_budget (allow l now).0 now rest one.0 o.1 in
    let rest_paid = rw one.1 at (more.1) in
    (
      more.0,
      omega (
        arith,
        add-mul (cost (allow l now).1 1) (run (allow l now).0 rest).1 l.interval,
        cost-mul (allow l now).1 l.interval,
      ),
    )

start_fresh :
    (burst interval first : ℕ)
    → start (new_rate_limiter burst interval) first
      ≡ record (new_rate_limiter burst interval) { last = first }
unfolding start new_rate_limiter
start_fresh burst interval first = refl

-- The first call starts the clock of a fresh limiter.
run_fresh :
    (burst interval first : ℕ) (calls : List ℕ)
    → 0 < first
    → run (new_rate_limiter burst interval) (first ∷ calls)
      ≡ run (record (new_rate_limiter burst interval) { last = first }) (first ∷ calls)
unfolding run allow new_rate_limiter
run_fresh burst interval first calls f =
    let begun : RateLimiter = record (new_rate_limiter burst interval) { last = first } in
    rw (start_fresh burst interval first, start_running begun first f)

-- Over any ordered stretch of calls that starts with a fresh limiter's first one, the permits
-- granted, at one interval each, cost at most the burst and the time from the first call to the
-- last.
pub permits_bounded :
    (burst interval first : ℕ) (calls : List ℕ)
    → 0 < interval
    → 0 < first
    → IsOrdered first calls
    → (run (new_rate_limiter burst interval) (first ∷ calls)).1 * interval + first
      ≤ burst * interval + last_call first calls
unfolding new_rate_limiter
permits_bounded burst interval first calls i f o =
    let begun = record (new_rate_limiter burst interval) { last = first } in
    let v : IsValid begun first = record {
      interval_pos = i;
      tokens_le = omega arith;
      started = f;
      last_le = omega arith;
    } in
    let all = run_budget begun first (first ∷ calls) v (omega arith, o) in
    let bound = all.0.last_le in rw (run_fresh burst interval first calls f) (omega arith)

-- A call that is refused leaves the limiter as it was, and comes before a whole interval has
-- passed: calls more frequent than the interval do not put the next permit off.
pub refused_early :
    (l l' : RateLimiter) (now : ℕ)
    → IsValid l now
    → 0 < l.burst
    → allow l now ≡ (l', false)
    → (l' ≡ l) × (l.tokens ≡ 0) × (now < l.last + l.interval)
unfolding allow refill spend
refused_early l l' now v b e =
    let started = start_running l now v.started in
    let whole = (le-div_iff_mul-le {k = l.interval} {x = 1} {y = now - l.last} v.interval_pos).1 in
    let e' = rw started at e in (ground (arith, e'), ground (arith, e'), ground (arith, e'))
