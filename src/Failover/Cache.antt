-- ===== src/Failover/Cache.antt =====
-- The cache of regions in regionurlprovider.go. What `fetch` answers is an argument, as are the
-- instants, in nanoseconds, and what other goroutines do to the cache while the lock is free.
use server_sdk_go.Prelude.{
  ℕ, zero, suc, ◌+◌, ◌<◌, ◌≡◌, List, [], ◌∷◌, Option, none, some, ltb, ◌==◌, if◌then◌else◌,
  Bool-cases, inl, inr, ◌⊎◌, ◌∙◌, refl, All, false, bytes_equal, bytes_equal-eq, bytes_equal_refl,
  ℤ, pos, negsuc, arith,
}
use server_sdk_go.Failover.Hosts.{to_lower}
use server_sdk_go.Failover.MaxAge.{parse_region_settings_max_age}

-- `livekit.RegionSettings`, by the URLs of its regions.
pub record RegionSettings : Type 0 where
  pub urls : List (List ℕ)

pub record CacheEntry : Type 0 where
  pub settings : RegionSettings
  pub fetched_at : ℕ
  pub ttl : ℕ

abbrev pub RegionCache : Type 0
RegionCache = List (List ℕ × CacheEntry)

-- `c.cache[key]`
unfoldable pub entry_of : List ℕ → RegionCache → Option CacheEntry
entry_of key [] = none
entry_of key ((at_key, entry) ∷ cache) =
    if bytes_equal at_key key then some entry else entry_of key cache

-- `c.cache[key] = entry`
unfoldable pub put : List ℕ → CacheEntry → RegionCache → RegionCache
put key new [] = (key, new) ∷ []
put key new ((at_key, entry) ∷ cache) =
    let rest = put key new cache in
    if bytes_equal at_key key then (key, new) ∷ cache else (at_key, entry) ∷ rest

-- What `fetch` returns for an answer of the server: its status, its body where it decodes, and its
-- header `Cache-Control`.
pub data Fetched : Type 0 where
  fetched : RegionSettings → ℤ → Fetched
  fetch_failed : Fetched

unfoldable pub fetch_answer : ℕ → Option RegionSettings → List ℕ → Fetched
fetch_answer code decoded cache_control =
    if code == 200
    then elim decoded [
      | none ↦ fetch_failed
      | some settings ↦ fetched settings (parse_region_settings_max_age cache_control)
    ]
    else fetch_failed

-- `ttl`, or the default where it is not positive.
unfoldable pub effective_ttl : ℤ → ℕ → ℕ
effective_ttl (pos zero) default = default
effective_ttl (pos (suc n)) default = suc n
effective_ttl (negsuc n) default = default

-- The first part under the lock.
unfoldable pub fresh : RegionCache → List ℕ → ℕ → Option RegionSettings
fresh cache key now = elim (entry_of key cache) [
  | none ↦ none
  | some e ↦ if ltb now (e.fetched_at + e.ttl) then some e.settings else none
]

unfoldable pub keep : List ℕ → RegionSettings → ℕ → ℕ → RegionCache → RegionCache
keep key settings now ttl cache =
    if ltb 0 ttl
    then put key (record { settings = settings; fetched_at = now; ttl = ttl }) cache
    else cache

unfoldable pub stale : RegionCache → List ℕ → Option RegionSettings
stale cache key = elim (entry_of key cache) [ none ↦ none | some e ↦ some e.settings ]

-- The second part, at the instant `now`, on the cache as it is then; `none` is the error of `fetch`.
unfoldable pub after_fetch :
    RegionCache → List ℕ → ℕ → Fetched → ℕ → RegionCache × Option RegionSettings
after_fetch cache key default fetch_failed now = (cache, stale cache key)
after_fetch cache key default (fetched settings ttl) now =
    (keep key settings now (effective_ttl ttl default) cache, some settings)

-- `meanwhile` is what other goroutines do between the two parts.
unfoldable pub cache_get :
    (RegionCache → RegionCache)
    → RegionCache
    → List ℕ
    → ℕ
    → ℕ
    → Fetched
    → ℕ
    → RegionCache × Option RegionSettings
cache_get meanwhile cache key default now answer later = elim (fresh cache (to_lower key) now) [
  | some settings ↦ (cache, some settings)
  | none ↦ after_fetch (meanwhile cache) (to_lower key) default answer later
]

-- `set`; a nil list is `none`.
unfoldable pub kept_ttl : Option CacheEntry → ℕ → ℕ
kept_ttl none default = default
kept_ttl (some e) default = if ltb 0 e.ttl then e.ttl else default

unfoldable pub cache_set : RegionCache → List ℕ → Option RegionSettings → ℕ → ℕ → RegionCache
cache_set cache key none default now = cache
cache_set cache key (some settings) default now =
    put (to_lower key)
      (record {
        settings = settings;
        fetched_at = now;
        ttl = kept_ttl (entry_of (to_lower key) cache) default;
      })
      cache

entry_of-put :
    (key : List ℕ) (new : CacheEntry) (cache : RegionCache)
    → entry_of key (put key new cache) ≡ some new
unfolding entry_of put
entry_of-put key new [] = ground (arith, bytes_equal_refl key)
entry_of-put key new ((at_key, entry) ∷ cache) =
    ground (arith, bytes_equal_refl key, entry_of-put key new cache)

entry_of-put_other :
    (key k : List ℕ) (new : CacheEntry) (cache : RegionCache)
    → bytes_equal key k ≡ false
    → entry_of k (put key new cache) ≡ entry_of k cache
unfolding entry_of put
entry_of-put_other key k new [] other = rw other refl
entry_of-put_other key k new ((at_key, entry) ∷ cache) other =
    elim (Bool-cases (bytes_equal at_key key)) [
      | inl here ↦
          let same : at_key ≡ key = bytes_equal-eq at_key key here in
          let away : bytes_equal at_key k ≡ false = rw same other in rw (here, other, away) refl
      | inr there ↦ let ih = entry_of-put_other key k new cache other in rw (there, ih) refl
    ]

stored :
    (meanwhile : RegionCache → RegionCache) (cache : RegionCache) (key : List ℕ)
    (default now later : ℕ) (settings : RegionSettings) (ttl : ℤ)
    → fresh cache (to_lower key) now ≡ none
    → 0 < effective_ttl ttl default
    → (cache_get meanwhile cache key default now (fetched settings ttl) later).0
      ≡ put
          (to_lower key)
          (record { settings = settings; fetched_at = later; ttl = effective_ttl ttl default })
          (meanwhile cache)
unfolding cache_get after_fetch keep
stored meanwhile cache key default now later settings ttl expired positive =
    rw (expired, cache_get) (ground arith)

-- What changes the cache: the end of a fetch for a host, and `set`.
pub data CacheStep : Type 0 where
  fetch_ends : List ℕ → ℕ → Fetched → ℕ → CacheStep
  sets : List ℕ → Option RegionSettings → ℕ → ℕ → CacheStep

unfoldable pub cache_step : CacheStep → RegionCache → RegionCache
cache_step (fetch_ends key default answer now) cache =
    (after_fetch cache (to_lower key) default answer now).0
cache_step (sets key settings default now) cache = cache_set cache key settings default now

unfoldable pub cache_steps : List CacheStep → RegionCache → RegionCache
cache_steps [] cache = cache
cache_steps (s ∷ ss) cache = cache_steps ss (cache_step s cache)

-- A step for another host, or one that brings no settings.
abbrev pub IsOther : List ℕ → CacheStep → Type 0
IsOther host (fetch_ends key default answer now) =
    (bytes_equal (to_lower key) host ≡ false) ⊎ (answer ≡ fetch_failed)
IsOther host (sets key settings default now) =
    (bytes_equal (to_lower key) host ≡ false) ⊎ (settings ≡ none)

entry_of-keep_other :
    (key k : List ℕ) (settings : RegionSettings) (now ttl : ℕ) (cache : RegionCache)
    → bytes_equal key k ≡ false
    → entry_of k (keep key settings now ttl cache) ≡ entry_of k cache
unfolding keep
entry_of-keep_other key k settings now ttl cache other = elim (Bool-cases (ltb 0 ttl)) [
  | inl kept ↦ rw kept (entry_of-put_other key k _ cache other)
  | inr not_kept ↦ rw not_kept refl
]

entry_of-cache_step :
    (k : List ℕ) (s : CacheStep) (cache : RegionCache)
    → IsOther k s
    → entry_of k (cache_step s cache) ≡ entry_of k cache
unfolding cache_step after_fetch cache_set
entry_of-cache_step k (fetch_ends key default fetch_failed now) cache h = refl
entry_of-cache_step k (fetch_ends key default (fetched settings ttl) now) cache (inl other) =
    entry_of-keep_other (to_lower key) k settings now (effective_ttl ttl default) cache other
entry_of-cache_step k (fetch_ends key default (fetched settings ttl) now) cache (inr bad) =
    absurd (ground arith)
entry_of-cache_step k (sets key none default now) cache h = refl
entry_of-cache_step k (sets key (some settings) default now) cache (inl other) =
    entry_of-put_other (to_lower key) k _ cache other
entry_of-cache_step k (sets key (some settings) default now) cache (inr bad) = absurd (ground arith)

entry_of-cache_steps :
    (k : List ℕ) (ss : List CacheStep) (cache : RegionCache)
    → All (IsOther k) ss
    → entry_of k (cache_steps ss cache) ≡ entry_of k cache
unfolding cache_steps
entry_of-cache_steps k [] cache h = refl
entry_of-cache_steps k (s ∷ ss) cache h =
    entry_of-cache_steps k ss (cache_step s cache) h.1 ∙ entry_of-cache_step k s cache h.0

-- What a call gives for a host that has an entry, before the fetch and behind it.
get_known :
    (meanwhile : RegionCache → RegionCache) (cache : RegionCache) (key : List ℕ)
    (default now later : ℕ) (answer : Fetched) (entry : CacheEntry)
    → entry_of (to_lower key) cache ≡ some entry
    → entry_of (to_lower key) (meanwhile cache) ≡ some entry
    → (cache_get meanwhile cache key default now answer later).1 ≡ (
        if ltb now (entry.fetched_at + entry.ttl)
        then some entry.settings
        else elim answer [ fetch_failed ↦ some entry.settings | fetched newer t ↦ some newer ])
unfolding cache_get after_fetch stale fresh
get_known meanwhile cache key default now later fetch_failed entry e e' = ground arith
get_known meanwhile cache key default now later (fetched newer t) entry e e' = ground arith

-- Region settings that a fetch at the instant `later` brought, with a positive time to live, are
-- what a later call for the host gives, in any case of its letters: within that time without
-- another fetch, and behind it where its own fetch fails. Between the two calls, and while the second
-- one waits for its fetch, there may be any number of fetches and of calls of `set` that are for
-- other hosts or bring no settings.
pub cache_get-cache_get :
    (meanwhile : RegionCache → RegionCache) (cache : RegionCache) (key key' : List ℕ)
    (default default' now now' later later' : ℕ) (settings : RegionSettings) (ttl : ℤ)
    (answer : Fetched) (between during : List CacheStep)
    → to_lower key' ≡ to_lower key
    → fresh cache (to_lower key) now ≡ none
    → 0 < effective_ttl ttl default
    → All (IsOther (to_lower key)) between
    → All (IsOther (to_lower key)) during
    → let cache' = (cache_get meanwhile cache key default now (fetched settings ttl) later).0 in
      (cache_get
        (cache_steps during)
        (cache_steps between cache')
        key'
        default'
        now'
        answer
        later').1
      ≡ (if ltb now' (later + effective_ttl ttl default)
          then some settings
          else elim answer [ fetch_failed ↦ some settings | fetched newer t ↦ some newer ])
cache_get-cache_get meanwhile cache key key' default default' now now' later later' settings ttl
      answer between during same expired positive other other' =
    let host = to_lower key in
    let entry : CacheEntry = record {
      settings = settings;
      fetched_at = later;
      ttl = effective_ttl ttl default;
    } in
    let kept = stored meanwhile cache key default now later settings ttl expired positive in
    let cache1 = put host entry (meanwhile cache) in
    let cache2 = cache_steps between cache1 in
    let known : entry_of host cache2 ≡ some entry =
      entry_of-cache_steps host between cache1 other ∙ entry_of-put host entry (meanwhile cache) in
    let known' : entry_of host (cache_steps during cache2) ≡ some entry =
      entry_of-cache_steps host during cache2 other' ∙ known in
    rw kept (
      get_known (cache_steps during) cache2 key' default' now' later' answer entry (rw same known)
        (rw same known'))
