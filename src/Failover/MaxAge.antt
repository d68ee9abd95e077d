-- ===== src/Failover/MaxAge.antt =====
-- `parseRegionSettingsMaxAge` of regionurlprovider.go, on ASCII header values.
use server_sdk_go.Prelude.{
  ℕ, ◌+◌, ◌-◌, ◌*◌, ◌%◌, ◌^◌, Bool, ◌&&◌, ◌||◌, List, [], ◌∷◌, ◌++◌, Option, none, some, ltb, leb,
  ◌==◌, if◌then◌else◌, length, drop, ℤ, pos, negsuc,
}
use server_sdk_go.Failover.Hosts.{to_lower, has_prefix}

-- `strings.Split(s, ",")`
unfoldable pub split_commas : List ℕ → List ℕ → List (List ℕ)
split_commas piece [] = piece ∷ []
split_commas piece (b ∷ bs) =
    if b == 44 then piece ∷ split_commas [] bs else split_commas (piece ++ (b ∷ [])) bs

abbrev pub is_space : ℕ → Bool
is_space b = (leb 9 b && leb b 13) || (b == 32)

unfoldable pub trim_left : List ℕ → List ℕ
trim_left [] = []
trim_left (b ∷ bs) = if is_space b then trim_left bs else b ∷ bs

-- Spaces at the end go with the bytes behind them.
unfoldable pub trim_right : List ℕ → List ℕ
trim_right [] = []
trim_right (b ∷ bs) =
    let rest = trim_right bs in if is_space b && (length rest == 0) then [] else b ∷ rest

-- `strings.TrimSpace`
abbrev pub trim_space : List ℕ → List ℕ
trim_space s = trim_right (trim_left s)

unfoldable pub digits : ℕ → List ℕ → Option ℕ
digits value [] = some value
digits value (b ∷ bs) =
    let rest = digits (value * 10 + (b - 48)) bs in if leb 48 b && leb b 57 then rest else none

-- Digits, and at least one, whose value fits an int.
unfoldable pub unsigned : List ℕ → Option ℕ
unsigned [] = none
unsigned (b ∷ bs) = elim (digits 0 (b ∷ bs)) [
  | none ↦ none
  | some n ↦ if ltb n (2 ^ 63) then some n else none
]

-- `strconv.Atoi` where the value is not negative, else none: the caller asks for a positive value.
unfoldable pub atoi : List ℕ → Option ℕ
atoi [] = none
atoi (b ∷ bs) = if b == 43 then unsigned bs else if b == 45 then none else unsigned (b ∷ bs)

-- `time.Duration(secs) * time.Second`, on int64.
unfoldable pub seconds : ℕ → ℤ
seconds n =
    let product = (n * 1_000_000_000) % 2 ^ 64 in
    if ltb product (2 ^ 63) then pos product else negsuc (2 ^ 64 - 1 - product)

-- "max-age="
abbrev pub max_age_prefix : List ℕ
max_age_prefix = 109 ∷ 97 ∷ 120 ∷ 45 ∷ 97 ∷ 103 ∷ 101 ∷ 61 ∷ []

-- One directive: the duration to return, if it is one.
unfoldable pub max_age_of : List ℕ → Option ℤ
max_age_of piece =
    let directive = to_lower (trim_space piece) in
    if has_prefix directive max_age_prefix
    then elim (atoi (drop 8 directive)) [
      | none ↦ none
      | some secs ↦ if ltb 0 secs then some (seconds secs) else none
    ]
    else none

unfoldable pub first_max_age : List (List ℕ) → ℤ
first_max_age [] = pos 0
first_max_age (piece ∷ pieces) =
    let rest = first_max_age pieces in elim (max_age_of piece) [ none ↦ rest | some ttl ↦ ttl ]

unfoldable pub parse_region_settings_max_age : List ℕ → ℤ
parse_region_settings_max_age cache_control = first_max_age (split_commas [] cache_control)
