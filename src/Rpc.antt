-- ===== src/Rpc.antt =====
-- rpc.go and utils.go: the errors of RPC, and the comparison of versions. Strings are bytes.
pub mod Limits
mod Tests
use server_sdk_go.Prelude.{
  ℕ, zero, suc, ◌+◌, ◌-◌, ◌*◌, ◌^◌, Bool, true, false, List, [], ◌∷◌, ◌++◌, Option, none, some, ltb,
  leb, ◌==◌, if◌then◌else◌, length, take, ℤ, pos, negsuc,
}
use server_sdk_go.Streams.{back_up}
use server_sdk_go.Failover.MaxAge.{digits}

abbrev pub max_message_bytes : ℕ
max_message_bytes = 256

abbrev pub max_data_bytes : ℕ
max_data_bytes = 15_360

-- The loop of `truncateBytes` runs down like that of `chunkUtf8String`.
unfoldable pub truncate_bytes : List ℕ → ℕ → List ℕ
truncate_bytes str max_bytes =
    if leb (length str) max_bytes then str else take (back_up str max_bytes) str

-- A nil pointer is `none`.
pub record RpcError : Type 0 where
  pub code : ℕ
  pub message : List ℕ
  pub payload : Option (List ℕ)

unfoldable pub truncated_data : Option (List ℕ) → Option (List ℕ)
truncated_data none = none
truncated_data (some bytes) = some (truncate_bytes bytes max_data_bytes)

unfoldable pub new_rpc_error : ℕ → List ℕ → Option (List ℕ) → RpcError
new_rpc_error code message payload = record {
  code = code;
  message = truncate_bytes message max_message_bytes;
  payload = truncated_data payload;
}

-- `livekit.RpcError`
pub record RpcErrorMessage : Type 0 where
  pub code : ℕ
  pub message : List ℕ
  pub payload : List ℕ

unfoldable pub rpc_error_from_proto : RpcErrorMessage → RpcError
rpc_error_from_proto proto = record {
  code = proto.code;
  message = proto.message;
  payload = some proto.payload;
}

unfoldable pub payload_or_empty : Option (List ℕ) → List ℕ
payload_or_empty none = []
payload_or_empty (some bytes) = bytes

-- `uint32(e.Code)`
unfoldable pub rpc_error_to_proto : RpcError → RpcErrorMessage
rpc_error_to_proto e = record {
  code = e.code;
  message = e.message;
  payload = payload_or_empty e.payload;
}

-- `strings.Split(v, ".")`
unfoldable pub split_dots : List ℕ → List ℕ → List (List ℕ)
split_dots piece [] = piece ∷ []
split_dots piece (b ∷ bs) =
    if b == 46 then piece ∷ split_dots [] bs else split_dots (piece ++ (b ∷ [])) bs

-- The value of `strconv.Atoi`, its error left aside: 0 for what is no number, the nearest int for one
-- out of range.
unfoldable pub unsigned_value : List ℕ → Option ℕ
unsigned_value [] = none
unsigned_value (b ∷ bs) = digits 0 (b ∷ bs)

unfoldable pub negated : ℕ → ℤ
negated zero = pos 0
negated (suc n) = if ltb n (2 ^ 63) then negsuc n else negsuc (2 ^ 63 - 1)

unfoldable pub atoi_value : List ℕ → ℤ
atoi_value [] = pos 0
atoi_value (b ∷ bs) =
    if b == 45
    then elim (unsigned_value bs) [ none ↦ pos 0 | some n ↦ negated n ]
    else elim (unsigned_value (if b == 43 then bs else b ∷ bs)) [
      | none ↦ pos 0
      | some n ↦ if ltb n (2 ^ 63) then pos n else pos (2 ^ 63 - 1)
    ]

pub data Order : Type 0 where
  less equal greater : Order

unfoldable pub compare_ints : ℤ → ℤ → Order
compare_ints (pos a) (pos b) = if ltb a b then less else if ltb b a then greater else equal
compare_ints (pos a) (negsuc b) = greater
compare_ints (negsuc a) (pos b) = less
compare_ints (negsuc a) (negsuc b) = if ltb b a then less else if ltb a b then greater else equal

-- The loop of `compareVersions`, with the comparison of lengths behind it, which is reached only
-- where one of the lists is empty from the start.
unfoldable pub compare_parts : List (List ℕ) → List (List ℕ) → Order
compare_parts [] [] = equal
compare_parts [] (q ∷ qs) = less
compare_parts (p ∷ ps) [] = greater
compare_parts (p ∷ []) (q ∷ qs) = compare_ints (atoi_value p) (atoi_value q)
compare_parts (p ∷ p' ∷ ps) (q ∷ []) = compare_ints (atoi_value p) (atoi_value q)
compare_parts (p ∷ p' ∷ ps) (q ∷ q' ∷ qs) =
    let rest = compare_parts (p' ∷ ps) (q' ∷ qs) in
    elim (compare_ints (atoi_value p) (atoi_value q)) [
      | less ↦ less
      | greater ↦ greater
      | equal ↦ rest
    ]

unfoldable pub compare_versions : List ℕ → List ℕ → Order
compare_versions v1 v2 = compare_parts (split_dots [] v1) (split_dots [] v2)
