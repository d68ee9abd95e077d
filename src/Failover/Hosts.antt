-- ===== src/Failover/Hosts.antt =====
-- The names of hosts in failover.go, regionurlprovider.go and signalling/utils.go, as ASCII bytes.
use server_sdk_go.Prelude.{
  ℕ, ◌+◌, ◌-◌, Bool, false, ◌&&◌, ◌||◌, List, [], ◌∷◌, ◌++◌, leb, if◌then◌else◌, length, take, drop,
  bytes_equal,
}

-- `strings.ToLower`
abbrev pub lower : ℕ → ℕ
lower b = if leb 65 b && leb b 90 then b + 32 else b

abbrev pub to_lower : List ℕ → List ℕ
to_lower [] = []
to_lower (b ∷ bs) = lower b ∷ to_lower bs

-- `strings.HasPrefix`
abbrev pub has_prefix : List ℕ → List ℕ → Bool
has_prefix s prefix = leb (length prefix) (length s) && bytes_equal (take (length prefix) s) prefix

-- `strings.HasSuffix`
abbrev pub has_suffix : List ℕ → List ℕ → Bool
has_suffix s suffix =
    leb (length suffix) (length s) && bytes_equal (drop (length s - length suffix) s) suffix

-- ".livekit.cloud"
abbrev pub cloud_suffix : List ℕ
cloud_suffix = 46 ∷ 108 ∷ 105 ∷ 118 ∷ 101 ∷ 107 ∷ 105 ∷ 116 ∷ 46 ∷ 99 ∷ 108 ∷ 111 ∷ 117 ∷ 100 ∷ []

-- "cloud-api."
abbrev pub api_prefix : List ℕ
api_prefix = 99 ∷ 108 ∷ 111 ∷ 117 ∷ 100 ∷ 45 ∷ 97 ∷ 112 ∷ 105 ∷ 46 ∷ []

-- ".livekit.io"
abbrev pub io_suffix : List ℕ
io_suffix = 46 ∷ 108 ∷ 105 ∷ 118 ∷ 101 ∷ 107 ∷ 105 ∷ 116 ∷ 46 ∷ 105 ∷ 111 ∷ []

unfoldable pub is_cloud : List ℕ → Bool
is_cloud hostname = has_suffix hostname cloud_suffix

unfoldable pub is_cloud_api : List ℕ → Bool
is_cloud_api hostname =
    has_prefix (to_lower hostname) api_prefix && has_suffix (to_lower hostname) io_suffix

-- `signalling.ToHttpURL`: "ws" becomes "http".
unfoldable pub to_http_url : List ℕ → List ℕ
to_http_url raw =
    if has_prefix raw (119 ∷ 115 ∷ []) then (104 ∷ 116 ∷ 116 ∷ 112 ∷ []) ++ drop 2 raw else raw

-- `_, seen := attempted[host]`
unfoldable pub tried_contains : List (List ℕ) → List ℕ → Bool
tried_contains [] host = false
tried_contains (h ∷ tried) host = bytes_equal h host || tried_contains tried host
