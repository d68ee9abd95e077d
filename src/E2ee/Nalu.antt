-- ===== src/E2ee/Nalu.antt =====
-- The NALU finders of e2ee/codec_video.go.
pub mod Stable
use server_sdk_go.Prelude.{
  ℕ, zero, suc, ◌+◌, ◌/◌, ◌≤◌, ◌<◌, ◌≡◌, refl, Bool, true, false, ◌&&◌, ◌||◌, List, [], ◌∷◌, ◌++◌,
  Option, some, none, leb, ◌==◌, if◌then◌else◌, length, get_or, bit_and, arith, get_or-append,
  length-append, ap, sym, ◌∙◌,
}

abbrev pub h264_nalu_type_mask : ℕ
h264_nalu_type_mask = 0x1f

abbrev pub h264_nalu_slice_non_idr : ℕ
h264_nalu_slice_non_idr = 1

abbrev pub h264_nalu_slice_idr : ℕ
h264_nalu_slice_idr = 5

abbrev pub h265_nalu_type_mask : ℕ
h265_nalu_type_mask = 0x3f

-- `i < len(data)-4`, where `i < len(data)-3` holds and the list is `data[i+4:]`.
abbrev pub more_than : List ℕ → Bool
more_than [] = false
more_than (x ∷ rest) = true

abbrev pub long_code : ℕ → ℕ → ℕ → ℕ → Bool
long_code a b c e = (a == 0) && (b == 0) && (c == 0) && (e == 1)

abbrev pub short_code : ℕ → ℕ → ℕ → Bool
short_code a b c = (a == 0) && (b == 0) && (c == 1)

-- The loop of `findNALUIndices` at `i`; the list is `data[i:]`.
unfoldable pub nalu_loop : ℕ → List ℕ → List ℕ
nalu_loop i (a ∷ b ∷ c ∷ e ∷ rest) = elim (more_than rest && long_code a b c e) [
  | true ↦ (i + 4) ∷ nalu_loop (i + 4) rest
  | false ↦ elim (short_code a b c) [
    | true ↦ (i + 3) ∷ nalu_loop (i + 3) (e ∷ rest)
    | false ↦ nalu_loop (i + 1) (b ∷ c ∷ e ∷ rest)
  ]
]
nalu_loop i (a ∷ b ∷ c ∷ []) = []
nalu_loop i (a ∷ b ∷ []) = []
nalu_loop i (a ∷ []) = []
nalu_loop i [] = []

unfoldable pub find_nalu_indices : List ℕ → List ℕ
find_nalu_indices sample = nalu_loop 0 sample

-- The loop over the indices that the two finders have in common; `none` stands for -1.
unfoldable pub first_slice : (ℕ → Bool) → List ℕ → List ℕ → Option ℕ
first_slice is_slice sample [] = none
first_slice is_slice sample (i ∷ is) =
    let rest = first_slice is_slice sample is in
    if leb (length sample) i
    then rest
    else if is_slice (get_or sample i 0)
    then some (i + 2)
    else rest

unfoldable pub is_h264_slice : ℕ → Bool
is_h264_slice header =
    let nalu_type = bit_and header h264_nalu_type_mask in
    (nalu_type == h264_nalu_slice_non_idr) || (nalu_type == h264_nalu_slice_idr)

unfoldable pub is_h265_slice_nalu : ℕ → Bool
is_h265_slice_nalu nalu_type = leb nalu_type 9 || (leb 16 nalu_type && leb nalu_type 21)

unfoldable pub is_h265_slice : ℕ → Bool
unfolding is_h265_slice_nalu
is_h265_slice header = is_h265_slice_nalu (bit_and (header / 2) h265_nalu_type_mask)

unfoldable pub find_h264_unencrypted_bytes : List ℕ → Option ℕ
find_h264_unencrypted_bytes sample = first_slice is_h264_slice sample (find_nalu_indices sample)

unfoldable pub find_h265_unencrypted_bytes : List ℕ → Option ℕ
find_h265_unencrypted_bytes sample = first_slice is_h265_slice sample (find_nalu_indices sample)
