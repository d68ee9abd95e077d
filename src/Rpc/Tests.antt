-- ===== src/Rpc/Tests.antt =====
-- Concrete runs of rpc.go and utils.go, and the theorem at a concrete input.
use server_sdk_go.Prelude.{◌≡◌, refl, [], ◌∷◌, none, some}
use server_sdk_go.Streams.{back_up, is_continuation}
use server_sdk_go.Failover.MaxAge.{digits}
use server_sdk_go.Rpc.{
  truncate_bytes, new_rpc_error, rpc_error_from_proto, rpc_error_to_proto, payload_or_empty,
  max_message_bytes, less, equal, compare_versions, compare_parts, compare_ints, atoi_value,
  unsigned_value, split_dots,
}
use server_sdk_go.Rpc.Limits.{IsTruncated, IsTruncatedData, new_rpc_error-IsTruncated}

-- "aé" cut to two bytes.
half_character : truncate_bytes (97 ∷ 195 ∷ 169 ∷ []) 2 ≡ 97 ∷ []
unfolding truncate_bytes back_up is_continuation
half_character = refl

-- "1.8.0" and "1.10.0"; "1.8" and "1.8.1".
numbers_compared :
    compare_versions (49 ∷ 46 ∷ 56 ∷ 46 ∷ 48 ∷ []) (49 ∷ 46 ∷ 49 ∷ 48 ∷ 46 ∷ 48 ∷ []) ≡ less
unfolding compare_versions compare_parts compare_ints atoi_value unsigned_value digits split_dots
numbers_compared = refl

longer_is_equal : compare_versions (49 ∷ 46 ∷ 56 ∷ []) (49 ∷ 46 ∷ 56 ∷ 46 ∷ 49 ∷ []) ≡ equal
unfolding compare_versions compare_parts compare_ints atoi_value unsigned_value digits split_dots
longer_is_equal = refl

-- Data that is not set comes back as data that is empty.
nil_data :
    rpc_error_from_proto (rpc_error_to_proto (record { code = 1500; message = []; payload = none }))
    ≡ record { code = 1500; message = []; payload = some [] }
unfolding rpc_error_from_proto rpc_error_to_proto payload_or_empty
nil_data = refl

new_rpc_error-IsTruncated_example :
    let e = new_rpc_error 1500 (97 ∷ 98 ∷ []) (some (1 ∷ [])) in
    (e.code ≡ 1500)
    × IsTruncated max_message_bytes (97 ∷ 98 ∷ []) e.message
    × IsTruncatedData (some (1 ∷ [])) e.payload
new_rpc_error-IsTruncated_example = new_rpc_error-IsTruncated 1500 (97 ∷ 98 ∷ []) (some (1 ∷ []))
