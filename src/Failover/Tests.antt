-- ===== src/Failover/Tests.antt =====
-- Concrete runs of failover.go and regionurlprovider.go, and the theorems at concrete inputs.
use server_sdk_go.Prelude.{
  ℕ, ◌≡◌, refl, true, not, List, inl, inr, [], ◌∷◌, none, some, ltb, if◌then◌else◌, pos, arith,
}
use server_sdk_go.Failover.Hosts.{is_cloud, is_cloud_api, to_http_url, tried_contains}
use server_sdk_go.Failover.{
  Request, readable, unreadable, can_read, body_failed, status, World, FailoverConfig, Context,
  answered, round_trip, failover, attempt_loop, discovered, next_target, next_region, untried,
  is_retryable, max_attempts_of, attempts, per_attempt_budget, is_short,
}
use server_sdk_go.Failover.Regions.{IsFirst, next_region-IsFirst}
use server_sdk_go.Failover.Attempts.{IsRightRun, round_trip-IsRight}
use server_sdk_go.Failover.MaxAge.{
  parse_region_settings_max_age, first_max_age, max_age_of, atoi, unsigned, digits, seconds,
  split_commas, trim_left, trim_right,
}
use server_sdk_go.Failover.Cache.{
  RegionSettings, fetched, fetch_failed, CacheStep, fetch_ends, cache_steps, cache_get, fresh,
  entry_of, effective_ttl, cache_get-cache_get,
}

-- A URL is its host; the first two attempts are answered by 503.
abbrev two_failures : World
two_failures = record {
  round_trip = λ attempt r. if ltb attempt 2 then status 503 else status 200;
  parse = λ url. some (record { scheme = 104 ∷ []; host = url });
  settings = λ attempt. some ((65 ∷ []) ∷ (66 ∷ []) ∷ (67 ∷ []) ∷ []);
  sleeps = λ attempt. true;
}

abbrev forced : FailoverConfig
forced = record { enabled = true; force = true }

abbrev ten_seconds : Context
ten_seconds = record { stashed = none; remaining = some (pos 10_000_000_000) }

abbrev asked : Request
asked = record {
  target = record { scheme = 104 ∷ []; host = 97 ∷ [] };
  body = readable (1 ∷ 2 ∷ []);
}

abbrev to_host : ℕ → Request
to_host h = record asked { target = record { scheme = 104 ∷ []; host = h ∷ [] } }

-- The first region has the request's host in another case, and is left out.
asks_three_hosts :
    round_trip two_failures forced ten_seconds (97 ∷ []) asked
    ≡ record { sent = to_host 97 ∷ to_host 66 ∷ to_host 67 ∷ []; ending = answered (status 200) }
unfolding round_trip failover attempt_loop discovered next_target next_region untried is_retryable
    max_attempts_of attempts per_attempt_budget is_short is_cloud is_cloud_api to_http_url
    tried_contains can_read
asks_three_hosts = refl

-- A body that cannot be read is not sent.
body_lost :
    round_trip two_failures forced ten_seconds (97 ∷ []) (record asked { body = unreadable })
    ≡ record { sent = []; ending = body_failed }
unfolding round_trip failover max_attempts_of attempts per_attempt_budget is_short is_cloud
    is_cloud_api can_read
body_lost = refl

round_trip-IsRight_example :
    IsRightRun two_failures
      (max_attempts_of two_failures forced ten_seconds (97 ∷ []))
      (not (is_cloud_api (97 ∷ [])))
      asked
      (round_trip two_failures forced ten_seconds (97 ∷ []) asked)
round_trip-IsRight_example = round_trip-IsRight two_failures forced ten_seconds (97 ∷ []) asked

next_region-IsFirst_example :
    IsFirst two_failures.parse
      ((97 ∷ []) ∷ [])
      ((65 ∷ []) ∷ (66 ∷ []) ∷ [])
      (next_region two_failures.parse (some ((65 ∷ []) ∷ (66 ∷ []) ∷ [])) ((97 ∷ []) ∷ []))
next_region-IsFirst_example =
    next_region-IsFirst two_failures.parse ((97 ∷ []) ∷ []) ((65 ∷ []) ∷ (66 ∷ []) ∷ [])

-- "no-cache, Max-Age=30 "
max_age_thirty :
    parse_region_settings_max_age
      (110 ∷ 111 ∷ 44 ∷ 32 ∷ 77 ∷ 97 ∷ 120 ∷ 45 ∷ 65 ∷ 103 ∷ 101 ∷ 61 ∷ 51 ∷ 48 ∷ 32 ∷ [])
    ≡ pos 30_000_000_000
unfolding parse_region_settings_max_age first_max_age max_age_of atoi unsigned digits seconds
    split_commas trim_left trim_right
max_age_thirty = refl

abbrev one_region : RegionSettings
one_region = record { urls = (66 ∷ []) ∷ [] }

abbrev two_regions : RegionSettings
two_regions = record { urls = (67 ∷ []) ∷ (68 ∷ []) ∷ [] }

-- A fetch for another host, and one that failed.
abbrev others : List CacheStep
others =
    fetch_ends (98 ∷ []) 0 (fetched two_regions (pos 9)) 8
    ∷ fetch_ends (97 ∷ []) 0 fetch_failed 9
    ∷ []

-- Behind its time, a list of regions is given again where the fetch fails.
cache_get-cache_get_example :
    let cache' = (cache_get (λ c. c) [] (97 ∷ []) 0 5 (fetched one_region (pos 10)) 7).0 in
    (cache_get (cache_steps others) (cache_steps others cache') (65 ∷ []) 0 20 fetch_failed 21).1
    ≡ some one_region
unfolding fresh entry_of effective_ttl
cache_get-cache_get_example =
    cache_get-cache_get (λ c. c) [] (97 ∷ []) (65 ∷ []) 0 0 5 20 7 21 one_region (pos 10)
      fetch_failed others others refl refl (omega arith) (inl refl, (inr refl, tt))
      (inl refl, (inr refl, tt))
