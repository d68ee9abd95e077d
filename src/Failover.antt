-- ===== src/Failover.antt =====
-- failover.go and regionurlprovider.go: API requests repeated against other regions. The transport,
-- the parser of URLs, the discovery of regions and the sleep between two attempts are other code:
-- what they answer is an argument. Hosts are ASCII.
pub mod Hosts
pub mod Regions
pub mod Attempts
pub mod MaxAge
pub mod Cache
mod Tests
use server_sdk_go.Prelude.{
  ℕ, zero, suc, ◌+◌, Bool, true, false, not, ◌&&◌, ◌||◌, List, [], ◌∷◌, Option, none, some, ltb,
  leb, ◌==◌, if◌then◌else◌, length, ℤ, pos, negsuc,
}
use server_sdk_go.Failover.Hosts.{to_lower, is_cloud, is_cloud_api, to_http_url, tried_contains}

-- The constants; durations are nanoseconds.
abbrev pub failover_max_attempts : ℕ
failover_max_attempts = 3

abbrev pub min_failover_timeout : ℕ
min_failover_timeout = 5_000_000_000

abbrev pub default_request_timeout : ℤ
default_request_timeout = pos 10_000_000_000

pub record FailoverConfig : Type 0 where
  pub enabled : Bool
  pub force : Bool

unfoldable pub attempts : FailoverConfig → List ℕ → ℕ
attempts c hostname =
    if c.enabled && (c.force || is_cloud hostname || is_cloud_api hostname)
    then failover_max_attempts
    else 1

-- The values of a context that matter here: the budget that was stashed, and the time that is left
-- until the deadline, where there is one.
pub record Context : Type 0 where
  pub stashed : Option ℤ
  pub remaining : Option ℤ

unfoldable pub per_attempt_budget : Context → ℤ
per_attempt_budget ctx = elim ctx.stashed [
  | some d ↦ d
  | none ↦ elim ctx.remaining [ none ↦ default_request_timeout | some d ↦ d ]
]

unfoldable pub long_enough : ℤ → Bool
long_enough (pos n) = leb min_failover_timeout n
long_enough (negsuc n) = false

-- The budget is stashed and the deadline detached.
unfoldable pub with_failover_timeout : FailoverConfig → Context → Context
with_failover_timeout config ctx = elim ctx.remaining [
  | none ↦ ctx
  | some timeout ↦
      if config.enabled && long_enough timeout
      then record { stashed = some timeout; remaining = none }
      else ctx
]

-- `timeout > 0 && timeout < minFailoverTimeout`
unfoldable pub is_short : ℤ → Bool
is_short (pos n) = ltb 0 n && ltb n min_failover_timeout
is_short (negsuc n) = false

-- Scheme and host of a URL.
pub record Target : Type 0 where
  pub scheme : List ℕ
  pub host : List ℕ

-- The body of a request: nil, one that reads as its bytes, or one of which a read fails.
pub data Body : Type 0 where
  no_body unreadable : Body
  readable : List ℕ → Body

pub record Request : Type 0 where
  pub target : Target
  pub body : Body

unfoldable pub can_read : Body → Bool
can_read no_body = true
can_read (readable bytes) = true
can_read unreadable = false

-- What the transport returns.
pub data Outcome : Type 0 where
  status : ℕ → Outcome
  canceled transport_error : Outcome

unfoldable pub is_retryable : Outcome → Bool
is_retryable (status code) = leb 500 code
is_retryable canceled = false
is_retryable transport_error = true

-- The loop of `nextRegion` over the regions' URLs.
unfoldable pub untried : (List ℕ → Option Target) → List (List ℕ) → List (List ℕ) → Option Target
untried parse [] tried = none
untried parse (url ∷ urls) tried =
    let rest = untried parse urls tried in
    elim (parse (to_http_url url)) [
      | none ↦ rest
      | some u ↦
          if (length u.host == 0) || tried_contains tried (to_lower u.host) then rest else some u
    ]

unfoldable pub next_region :
    (List ℕ → Option Target) → Option (List (List ℕ)) → List (List ℕ) → Option Target
next_region parse none tried = none
next_region parse (some urls) tried = untried parse urls tried

-- How a request ends: with what the transport returned, because its context ended, or because its
-- body could not be read.
pub data Ending : Type 0 where
  answered : Outcome → Ending
  interrupted body_failed : Ending
  unreached : Ending

-- The requests that were sent, and the end.
pub record Run : Type 0 where
  pub sent : List Request
  pub ending : Ending

-- What the other code answers: the transport, the parser of URLs, the region settings when they are
-- asked for at an attempt, and whether the sleep behind an attempt came to its end.
pub record World : Type 0 where
  pub round_trip : ℕ → Request → Outcome
  pub parse : List ℕ → Option Target
  pub settings : ℕ → Option (List (List ℕ))
  pub sleeps : ℕ → Bool

module _ (w : World) where
  unfoldable pub discovered : Bool → ℕ → Option (List (List ℕ)) → Option (List (List ℕ))
  discovered discover attempt (some urls) = some urls
  discovered discover attempt none = if discover then w.settings attempt else none

  -- Where the next request goes; without a region that is left, to the same host.
  unfoldable pub next_target : Option (List (List ℕ)) → List (List ℕ) → Target → Target
  next_target regions tried target = elim (next_region w.parse regions tried) [
    | none ↦ target
    | some u ↦ u
  ]

  -- The loop of `failover`, by the attempts that are left.
  unfoldable pub attempt_loop :
      ℕ → ℕ → Bool → Request → List (List ℕ) → Option (List (List ℕ)) → Run
  attempt_loop zero attempt discover r tried regions = record { sent = []; ending = unreached }
  attempt_loop (suc left) attempt discover r tried regions =
      let outcome = w.round_trip attempt r in
      let found = discovered discover attempt regions in
      let next = next_target found tried r.target in
      let rest =
        attempt_loop left (attempt + 1) discover (record r { target = next })
          (to_lower next.host ∷ tried) found in
      if not (is_retryable outcome) || (left == 0)
      then record { sent = r ∷ []; ending = answered outcome }
      else if w.sleeps attempt
      then record { sent = r ∷ rest.sent; ending = rest.ending }
      else record { sent = r ∷ []; ending = interrupted }

  -- The body is read once, and sent again with each attempt.
  unfoldable pub failover : ℕ → List ℕ → Request → Run
  failover max_attempts hostname r =
      if can_read r.body
      then attempt_loop max_attempts 0 (not (is_cloud_api hostname)) r (to_lower r.target.host ∷ [])
          none
      else record { sent = []; ending = body_failed }

  unfoldable pub max_attempts_of : FailoverConfig → Context → List ℕ → ℕ
  max_attempts_of config ctx hostname =
      if is_short (per_attempt_budget ctx) then 1 else attempts config hostname

  -- `RoundTrip`
  unfoldable pub round_trip : FailoverConfig → Context → List ℕ → Request → Run
  round_trip config ctx hostname r =
      if max_attempts_of config ctx hostname == 1
      then record { sent = r ∷ []; ending = answered (w.round_trip 0 r) }
      else failover (max_attempts_of config ctx hostname) hostname r
