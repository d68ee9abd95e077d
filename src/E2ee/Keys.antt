-- ===== src/E2ee/Keys.antt =====
-- e2ee/keyprovider.go: the keys, and what the cryptors see of them.
use server_sdk_go.Prelude.{
  ℕ, ◌≡◌, ◌≤◌, List, [], Option, some, ltb, ◌==◌, if◌then◌else◌, length, lookup, insert,
  lookup-insert, arith, refl,
}
use server_sdk_go.E2ee.Gcm.{
  CodecError, key_size_bytes, max_key_index, incorrect_key_length, key_index_out_of_range,
  passphrase_empty,
}

pub record ExternalKeyProvider : Type 0 where
  pub stored : List (ℕ × List ℕ)
  pub current_index : ℕ

abbrev pub new_external_key_provider : ExternalKeyProvider
new_external_key_provider = record { stored = []; current_index = 0 }

pub data KeyResult : Type 0 where
  updated : ExternalKeyProvider → KeyResult
  refused : CodecError → KeyResult

unfoldable pub set_raw_key : List ℕ → ℕ → ExternalKeyProvider → KeyResult
set_raw_key key index p =
    if length key == key_size_bytes
    then if ltb max_key_index index
      then refused key_index_out_of_range
      else updated (record { stored = insert index key p.stored; current_index = index })
    else refused incorrect_key_length

-- `derive` is `pbkdf2.Key` at the salt, the iterations, the size and the hash of the source.
unfoldable pub set_key_from_passphrase :
    (derive : List ℕ → List ℕ) → List ℕ → ℕ → ExternalKeyProvider → KeyResult
set_key_from_passphrase derive passphrase index p =
    if length passphrase == 0
    then refused passphrase_empty
    else if ltb max_key_index index
    then refused key_index_out_of_range
    else updated
        (record { stored = insert index (derive passphrase) p.stored; current_index = index })

unfoldable pub get_key : ExternalKeyProvider → ℕ → Option (List ℕ)
get_key p index = lookup index p.stored

unfoldable pub current_key_index : ExternalKeyProvider → ℕ
current_key_index p = p.current_index

-- The indices of all keys that were stored fit in a byte, and so does the current one.
unfoldable pub IsValid : ExternalKeyProvider → Type 0
IsValid p =
    (p.current_index ≤ max_key_index)
    × ((i : ℕ) (key : List ℕ) → get_key p i ≡ some key → i ≤ max_key_index)

-- A key of 16 bytes at an index up to 255 is stored: it is the current one, it is what `GetKey`
-- gives at its index, and all other indices keep their keys. The provider stays valid.
pub get_key-set_raw_key :
    (key : List ℕ) (index : ℕ) (p : ExternalKeyProvider)
    → length key ≡ key_size_bytes
    → index ≤ max_key_index
    → IsValid p
    → (p' : ExternalKeyProvider) × (set_raw_key key index p ≡ updated p')
      × (current_key_index p' ≡ index)
      × ((j : ℕ) → get_key p' j ≡ (if index == j then some key else get_key p j))
      × IsValid p'
unfolding set_raw_key get_key current_key_index IsValid
get_key-set_raw_key key index p len le valid = (
  record { stored = insert index key p.stored; current_index = index },
  ground arith,
  refl,
  λ j. lookup-insert index j key p.stored,
  (le, λ i k e. ground (arith, lookup-insert index i key p.stored, valid.1 i k)),
)

-- What a cryptor sees of a `types.KeyProvider` while it handles one frame.
pub record KeyProvider : Type 0 where
  pub current : ℕ
  pub key_at : ℕ → Option (List ℕ)

unfoldable pub provider : ExternalKeyProvider → KeyProvider
provider p = record { current = current_key_index p; key_at = get_key p }
