-- ===== src/Rpc/Limits.antt =====
-- The sizes of the errors of rpc.go.
use server_sdk_go.Prelude.{
  ℕ, ◌≤◌, ◌<◌, ◌≡◌, inl, inr, refl, false, List, [], ◌++◌, Option, none, some, leb, length, take,
  drop, get_or, Bool-cases, arith, length-take, take-append-drop, append-nil,
}
use server_sdk_go.Streams.{back_up, is_continuation}
use server_sdk_go.Streams.Utf8.{back_up-le, back_up-starts}
use server_sdk_go.Rpc.{
  truncate_bytes, truncated_data, new_rpc_error, max_message_bytes, max_data_bytes,
}

-- What is left of `str`: all of it where it fits, else a part from its start that fits and behind
-- which a character starts, if it is not empty.
abbrev pub IsTruncated : ℕ → List ℕ → List ℕ → Type 0
IsTruncated max str short =
    (length short ≤ max)
    × ((rest : List ℕ) × (short ++ rest ≡ str))
    × (length str ≤ max → short ≡ str)
    × ((max < length str)
        → 1 ≤ length short
        → is_continuation (get_or str (length short) 0) ≡ false)

truncate_bytes-IsTruncated : (max : ℕ) (str : List ℕ) → IsTruncated max str (truncate_bytes str max)
unfolding truncate_bytes
truncate_bytes-IsTruncated max str = elim (Bool-cases (leb (length str) max)) [
  | inl fits ↦
      let same : truncate_bytes str max ≡ str = ground arith in
      rw same (ground arith, ([], append-nil str), (λ h. refl), λ h. absurd (ground arith))
  | inr long ↦
      let k = back_up str max in
      let same : truncate_bytes str max ≡ take k str = ground arith in
      let at_most = back_up-le str max in
      let size : length (take k str) ≡ k = ground (arith, at_most, length-take k str) in
      rw same (
        omega (arith, size, at_most),
        (drop k str, take-append-drop k str),
        (λ h. absurd (ground arith)),
        λ h positive. rw size (back_up-starts str max (omega (arith, size, positive))),
      )
]

abbrev pub IsTruncatedData : Option (List ℕ) → Option (List ℕ) → Type 0
IsTruncatedData none none = Unit
IsTruncatedData (some bytes) (some short) = IsTruncated max_data_bytes bytes short
IsTruncatedData none (some short) = ⊥
IsTruncatedData (some bytes) none = ⊥

truncated_data-IsTruncated :
    (payload : Option (List ℕ)) → IsTruncatedData payload (truncated_data payload)
unfolding truncated_data
truncated_data-IsTruncated none = tt
truncated_data-IsTruncated (some bytes) = truncate_bytes-IsTruncated max_data_bytes bytes

-- An RPC error has at most 256 bytes of the message and 15360 bytes of the data, each whole where it
-- fits, else a part from the start that, unless it is empty, ends in front of the start of a character.
pub new_rpc_error-IsTruncated :
    (code : ℕ) (message : List ℕ) (payload : Option (List ℕ))
    → let e = new_rpc_error code message payload in
      (e.code ≡ code)
      × IsTruncated max_message_bytes message e.message
      × IsTruncatedData payload e.payload
unfolding new_rpc_error
new_rpc_error-IsTruncated code message payload =
    (refl, truncate_bytes-IsTruncated max_message_bytes message, truncated_data-IsTruncated payload)
