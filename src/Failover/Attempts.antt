-- ===== src/Failover/Attempts.antt =====
-- The requests that the loop of failover.go sends, and how it ends.
use server_sdk_go.Prelude.{
  ℕ, zero, suc, ◌+◌, ◌≤◌, ◌≡◌, ◌⊎◌, inl, inr, refl, Bool, true, false, not, ◌||◌, List, [], ◌∷◌,
  Option, none, some, ◌==◌, All, Bool-cases, Option-cases, length, arith, ◌&&◌,
}
use mathlib.Core.Path.{subst}
use server_sdk_go.Failover.{
  Outcome, status, transport_error, canceled, Body, no_body, unreadable, readable, can_read,
  body_failed, Target, Request, is_retryable, Ending, answered, interrupted, Run, World, discovered,
  next_target, next_region, attempt_loop, failover, round_trip, with_failover_timeout, long_enough,
  FailoverConfig, Context, max_attempts_of, attempts, per_attempt_budget, is_short,
}
use server_sdk_go.Failover.Hosts.{to_lower, is_cloud, is_cloud_api}
use server_sdk_go.Failover.Regions.{IsFirst, next_region-IsFirst}

abbrev pub pred : ℕ → ℕ
pred zero = zero
pred (suc n) = n

-- What is worth another attempt: an error of the transport other than the caller's cancellation, or
-- an answer of the 500s and above.
abbrev pub HasFailed : Outcome → Type 0
HasFailed (status code) = 500 ≤ code
HasFailed transport_error = Unit
HasFailed canceled = ⊥

is_retryable-HasFailed : (o : Outcome) → is_retryable o ≡ true → HasFailed o
unfolding is_retryable
is_retryable-HasFailed (status code) h = ground arith
is_retryable-HasFailed transport_error h = tt
is_retryable-HasFailed canceled h = absurd (ground arith)

is_retryable-ne-HasFailed : (o : Outcome) → is_retryable o ≡ false → ¬ HasFailed o
unfolding is_retryable
is_retryable-ne-HasFailed (status code) h = λ f. absurd (ground arith)
is_retryable-ne-HasFailed transport_error h = λ f. absurd (ground arith)
is_retryable-ne-HasFailed canceled h = λ f. f

stop_reason :
    (left : ℕ) (o : Outcome)
    → (not (is_retryable o) || (left == 0)) ≡ true
    → (¬ HasFailed o) ⊎ (suc left ≡ 1)
stop_reason left o h = elim (Bool-cases (is_retryable o)) [
  | inl again ↦ inr (ground arith)
  | inr enough ↦ inl (is_retryable-ne-HasFailed o enough)
]

module _ (w : World) where
  -- The regions known behind an attempt: those of an earlier one, else those asked for now, unless
  -- the host has none.
  abbrev pub known : Bool → ℕ → Option (List (List ℕ)) → Option (List (List ℕ))
  known discover attempt (some urls) = some urls
  known true attempt none = w.settings attempt
  known false attempt none = none

  abbrev pub or_same : Target → Option Target → Target
  or_same prev none = prev
  or_same prev (some u) = u

  -- Where the next request goes: to the first known region that was not tried, and to the same host
  -- where there is none or no region is known.
  abbrev pub IsNext : Option (List (List ℕ)) → List (List ℕ) → Target → Target → Type 0
  IsNext none tried prev new = new ≡ prev
  IsNext (some urls) tried prev new =
      (first : Option Target) × IsFirst w.parse tried urls first × (new ≡ or_same prev first)

  -- Each of the requests behind one to `prev` goes where it should.
  abbrev pub IsSpread :
      Bool → ℕ → Option (List (List ℕ)) → List (List ℕ) → Target → List Request → Type 0
  IsSpread discover attempt regions tried prev [] = Unit
  IsSpread discover attempt regions tried prev (r ∷ rs) =
      IsNext (known discover attempt regions) tried prev r.target
      × IsSpread discover (attempt + 1) (known discover attempt regions)
          (to_lower r.target.host ∷ tried) r.target rs

  -- How the attempts end: the last one was answered and is not repeated, or was the last one
  -- allowed, or the context ended behind it; each one before it failed in a way that is retried.
  abbrev pub IsEnd : ℕ → ℕ → List Request → Ending → Type 0
  IsEnd left attempt [] e = ⊥
  IsEnd left attempt (r ∷ []) e =
      ((e ≡ answered (w.round_trip attempt r))
        × ((¬ HasFailed (w.round_trip attempt r)) ⊎ (left ≡ 1)))
      ⊎ ((e ≡ interrupted) × HasFailed (w.round_trip attempt r) × (w.sleeps attempt ≡ false))
  IsEnd left attempt (r ∷ s ∷ rs) e =
      HasFailed (w.round_trip attempt r)
      × (w.sleeps attempt ≡ true)
      × IsEnd (pred left) (attempt + 1) (s ∷ rs) e

  next_target-or_same :
      (regions : Option (List (List ℕ))) (tried : List (List ℕ)) (target : Target)
      → next_target w regions tried target ≡ or_same target (next_region w.parse regions tried)
  unfolding next_target
  next_target-or_same regions tried target =
      elim (Option-cases (next_region w.parse regions tried)) [
        | inl e ↦ rw (e, next_target) refl
        | inr (u, e) ↦ rw (e, next_target) refl
      ]

  next_target-IsNext :
      (regions : Option (List (List ℕ))) (tried : List (List ℕ)) (target : Target)
      → IsNext regions tried target (next_target w regions tried target)
  unfolding next_region
  next_target-IsNext none tried target = next_target-or_same none tried target
  next_target-IsNext (some urls) tried target = (
    next_region w.parse (some urls) tried,
    next_region-IsFirst w.parse tried urls,
    next_target-or_same (some urls) tried target,
  )

  discovered-known :
      (discover : Bool) (attempt : ℕ) (regions : Option (List (List ℕ)))
      → discovered w discover attempt regions ≡ known discover attempt regions
  unfolding discovered
  discovered-known discover attempt (some urls) = refl
  discovered-known true attempt none = refl
  discovered-known false attempt none = refl

  -- What the loop does from a state with attempts left.
  pub record IsRight (left attempt : ℕ) (discover : Bool) (r : Request) (tried : List (List ℕ))
      (regions : Option (List (List ℕ))) (run : Run) : Type 0 where
    pub tail : List Request
    pub first : run.sent ≡ r ∷ tail
    pub bounded : length run.sent ≤ left
    pub same_body : All (λ s. s.body ≡ r.body) run.sent
    pub spread : IsSpread discover attempt regions tried r.target tail
    pub ends : IsEnd left attempt run.sent run.ending

  module _ (left attempt : ℕ) (discover : Bool) (r : Request) (tried : List (List ℕ))
      (regions : Option (List (List ℕ))) where
    abbrev found : Option (List (List ℕ))
    found = discovered w discover attempt regions

    abbrev next : Request
    next = record r { target = next_target w found tried r.target }

    abbrev rest : Run
    rest = attempt_loop w left (attempt + 1) discover next (to_lower next.target.host ∷ tried) found

    abbrev whole : Run
    whole = attempt_loop w (suc left) attempt discover r tried regions

    stops-IsRight :
        (not (is_retryable (w.round_trip attempt r)) || (left == 0)) ≡ true
        → IsRight (suc left) attempt discover r tried regions whole
    unfolding attempt_loop
    stops-IsRight stop = rw stop (record {
      tail = [];
      first = refl;
      bounded = omega arith;
      same_body = (refl, tt);
      spread = tt;
      ends = inl (refl, stop_reason left (w.round_trip attempt r) stop);
    })

    interrupted-IsRight :
        (not (is_retryable (w.round_trip attempt r)) || (left == 0)) ≡ false
        → w.sleeps attempt ≡ false
        → IsRight (suc left) attempt discover r tried regions whole
    unfolding attempt_loop
    interrupted-IsRight go wakes =
        rw (go, wakes)
          (record {
            tail = [];
            first = refl;
            bounded = omega arith;
            same_body = (refl, tt);
            spread = tt;
            ends =
                inr (refl, is_retryable-HasFailed (w.round_trip attempt r) (ground arith), wakes);
          })

    continues-IsRight :
        (not (is_retryable (w.round_trip attempt r)) || (left == 0)) ≡ false
        → w.sleeps attempt ≡ true
        → IsRight left (attempt + 1) discover next (to_lower next.target.host ∷ tried) found rest
        → IsRight (suc left) attempt discover r tried regions whole
    unfolding attempt_loop
    continues-IsRight go sleeps ih =
        rw (go, sleeps)
          (record {
            tail = rest.sent;
            first = refl;
            bounded = omega (arith, ih.bounded);
            same_body = (refl, ih.same_body);
            spread = rw ih.first (
                rw (← discovered-known discover attempt regions)
                  (next_target-IsNext found tried r.target, ih.spread));
            ends = rw ih.first (
              is_retryable-HasFailed (w.round_trip attempt r) (ground arith),
              sleeps,
              subst (λ l. IsEnd left (attempt + 1) l rest.ending) ih.first ih.ends,
            );
          })

  attempt_loop-IsRight :
      (left attempt : ℕ) (discover : Bool) (r : Request) (tried : List (List ℕ))
      (regions : Option (List (List ℕ)))
      → IsRight
          (suc left)
          attempt
          discover
          r
          tried
          regions
          (attempt_loop w (suc left) attempt discover r tried regions)
  attempt_loop-IsRight zero attempt discover r tried regions =
      stops-IsRight zero attempt discover r tried regions (ground arith)
  attempt_loop-IsRight (suc left) attempt discover r tried regions =
      elim (Bool-cases (not (is_retryable (w.round_trip attempt r)) || (suc left == 0))) [
        | inl stop ↦ stops-IsRight (suc left) attempt discover r tried regions stop
        | inr go ↦ elim (Bool-cases (w.sleeps attempt)) [
          | inr wakes ↦ interrupted-IsRight (suc left) attempt discover r tried regions go wakes
          | inl sleeps ↦
              continues-IsRight (suc left) attempt discover r tried regions go sleeps
                (attempt_loop-IsRight left (attempt + 1) discover _ _ _)
        ]
      ]

  budget_kept :
      (config : FailoverConfig) (ctx : Context)
      → ctx.stashed ≡ none
      → per_attempt_budget (with_failover_timeout config ctx) ≡ per_attempt_budget ctx
  unfolding with_failover_timeout per_attempt_budget
  budget_kept config ctx h = elim (Option-cases ctx.remaining) [
    | inl e ↦ ground arith
    | inr (d, e) ↦ elim (Bool-cases (config.enabled && long_enough d)) [
      | inl yes_long ↦ ground arith
      | inr short ↦ ground arith
    ]
  ]

  max_attempts_positive :
      (config : FailoverConfig) (ctx : Context) (hostname : List ℕ)
      → (left : ℕ) × (max_attempts_of w config ctx hostname ≡ suc left)
  unfolding max_attempts_of attempts
  max_attempts_positive config ctx hostname =
      elim (Bool-cases (is_short (per_attempt_budget ctx))) [
        | inl e ↦ (0, ground arith)
        | inr e ↦
            elim (Bool-cases
              (config.enabled && (config.force || is_cloud hostname || is_cloud_api hostname))) [
                | inl e' ↦ (2, ground arith)
                | inr e' ↦ (0, ground arith)
              ]
      ]

  abbrev pub IsRightRun : ℕ → Bool → Request → Run → Type 0
  IsRightRun allowed discover r run =
      (((¬ (r.body ≡ unreadable)) ⊎ (allowed ≡ 1))
        × IsRight allowed 0 discover r (to_lower r.target.host ∷ []) none run)
      ⊎ ((r.body ≡ unreadable) × (2 ≤ allowed) × (run ≡ record { sent = []; ending = body_failed }))

  body-cases : (b : Body) → (b ≡ unreadable) ⊎ ((can_read b ≡ true) × (¬ (b ≡ unreadable)))
  unfolding can_read
  body-cases unreadable = inl refl
  body-cases no_body = inr (refl, λ h. absurd (ground arith))
  body-cases (readable bytes) = inr (refl, λ h. absurd (ground arith))

  failover-IsRightRun :
      (left : ℕ) (hostname : List ℕ) (r : Request)
      → 1 ≤ left
      → IsRightRun (suc left) (not (is_cloud_api hostname)) r (failover w (suc left) hostname r)
  unfolding failover can_read
  failover-IsRightRun left hostname r more = elim (body-cases r.body) [
    | inl e ↦ inr (e, omega arith, rw (e, can_read) refl)
    | inr (reads, known_body) ↦ rw reads (
        inl (
          inl known_body,
          attempt_loop-IsRight left 0 (not (is_cloud_api hostname)) r (to_lower r.target.host ∷ [])
              none,
        ))
  ]

  -- `RoundTrip` sends the request to its own host first and, in all, at most as many requests as
  -- the budget, the configuration and the host allow. Each has the body of the first; each after it
  -- goes to the first region known by then whose host none before went to, and to its predecessor's
  -- host where no such region is known. The last one's answer is returned, where it is neither an
  -- error nor of the 500s or above, where it was canceled, or where no attempt is left, or the
  -- context ended behind its failure; the others were errors, or of the 500s or above. Where more
  -- than one request is allowed and the body cannot be read, none is sent and that is the end.
  pub round_trip-IsRight :
      (config : FailoverConfig) (ctx : Context) (hostname : List ℕ) (r : Request)
      → IsRightRun
          (max_attempts_of w config ctx hostname)
          (not (is_cloud_api hostname))
          r
          (round_trip w config ctx hostname r)
  unfolding round_trip
  round_trip-IsRight config ctx hostname r =
      let (left, e) = max_attempts_positive config ctx hostname in
      elim (Bool-cases (max_attempts_of w config ctx hostname == 1)) [
        | inl one ↦
            let alone : max_attempts_of w config ctx hostname ≡ 1 = ground arith in
            rw alone (
              inl (
                inr refl,
                record {
                  tail = [];
                  first = refl;
                  bounded = ground arith;
                  same_body = (refl, tt);
                  spread = tt;
                  ends = inl (refl, inr refl);
                },
              ))
        | inr more ↦ rw (more, e) (failover-IsRightRun left hostname r (ground arith))
      ]

  -- Detaching the deadline of a context without a stashed budget leaves the time for each attempt
  -- as it was, and with it the number of attempts.
  pub with_failover_timeout_lem :
      (config : FailoverConfig) (ctx : Context) (hostname : List ℕ)
      → ctx.stashed ≡ none
      → (per_attempt_budget (with_failover_timeout config ctx) ≡ per_attempt_budget ctx)
        × (max_attempts_of w config (with_failover_timeout config ctx) hostname
            ≡ max_attempts_of w config ctx hostname)
  unfolding max_attempts_of
  with_failover_timeout_lem config ctx hostname h =
      let same = budget_kept config ctx h in (same, rw same refl)
