-- ===== src/Prelude/Maps.antt =====
-- Go maps with numbers as keys, as association lists in which a key stands once.
use Prim.Native.Nat.{ℕ, suc}
use mathlib.Core.Path.{◌≡◌, refl}
use mathlib.Core.Bool.{Bool, true, false}
use mathlib.Core.List.{List, [], ◌∷◌, ◌++◌}
use mathlib.Core.Option.{Option, none, some}
use native.Mathlib.Omega.{arith}
use server_sdk_go.Prelude.Tests.{◌==◌, if◌then◌else◌}
use server_sdk_go.Prelude.Lists.{length}

-- `slices.Contains`
unfoldable pub contains : List ℕ → ℕ → Bool
contains [] k = false
contains (j ∷ ks) k = if j == k then true else contains ks k

abbrev pub Distinct : List ℕ → Type 0
Distinct [] = Unit
Distinct (k ∷ ks) = (contains ks k ≡ false) × Distinct ks

module _ {ℓ} {V : Type ℓ} where
  -- `delete(m, k)`
  unfoldable pub delete : ℕ → List (ℕ × V) → List (ℕ × V)
  delete k [] = []
  delete k ((j, v) ∷ m) = if j == k then m else (j, v) ∷ delete k m

  -- `m[k] = v`
  unfoldable pub insert : ℕ → V → List (ℕ × V) → List (ℕ × V)
  insert key new ((at, old) ∷ rest) =
      if at == key then (key, new) ∷ rest else (at, old) ∷ insert key new rest
  insert key new [] = (key, new) ∷ []

  unfoldable pub keys : List (ℕ × V) → List ℕ
  keys [] = []
  keys ((j, v) ∷ m) = j ∷ keys m

  -- `m[k]`
  unfoldable pub lookup : ℕ → List (ℕ × V) → Option V
  lookup key ((at, value) ∷ rest) = if at == key then some value else lookup key rest
  lookup key [] = none

  pub lookup-insert :
      (key other : ℕ) (new : V) (rest : List (ℕ × V))
      → lookup other (insert key new rest) ≡ (if key == other then some new else lookup other rest)
  unfolding insert lookup
  lookup-insert key other new ((at, old) ∷ rest) = ground (arith, lookup-insert key other new rest)
  lookup-insert key other new [] = refl

  pub contains-insert :
      (k j : ℕ) (v : V) (m : List (ℕ × V))
      → contains (keys (insert k v m)) j ≡ (if k == j then true else contains (keys m) j)
  unfolding contains keys insert
  contains-insert k j v [] = refl
  contains-insert k j v ((i, w) ∷ m) = ground (arith, contains-insert k j v m)

  pub insert-Distinct :
      (k : ℕ) (v : V) (m : List (ℕ × V)) → Distinct (keys m) → Distinct (keys (insert k v m))
  unfolding contains keys insert
  insert-Distinct k v [] h = (refl, tt)
  insert-Distinct k v ((i, w) ∷ m) h =
      ground (arith, insert-Distinct k v m h.1, contains-insert k i v m)

  pub length-insert :
      (k : ℕ) (v : V) (m : List (ℕ × V))
      → length (insert k v m) ≡ (if contains (keys m) k then length m else suc (length m))
  unfolding contains keys insert
  length-insert k v [] = refl
  length-insert k v ((i, w) ∷ m) = ground (arith, length-insert k v m)

  pub contains-delete :
      (k j : ℕ) (m : List (ℕ × V))
      → Distinct (keys m)
      → contains (keys (delete k m)) j ≡ (if k == j then false else contains (keys m) j)
  unfolding contains keys delete
  contains-delete k j [] h = ground arith
  contains-delete k j ((i, w) ∷ m) h = ground (arith, contains-delete k j m h.1)

  pub lookup-contains : (k : ℕ) (m : List (ℕ × V)) → contains (keys m) k ≡ false → lookup k m ≡ none
  unfolding contains keys lookup
  lookup-contains k [] h = refl
  lookup-contains k ((i, w) ∷ m) h = ground (arith, lookup-contains k m)

  pub lookup-delete :
      (k j : ℕ) (m : List (ℕ × V))
      → Distinct (keys m)
      → lookup j (delete k m) ≡ (if k == j then none else lookup j m)
  unfolding contains keys delete lookup
  lookup-delete k j [] h = ground arith
  lookup-delete k j ((i, w) ∷ m) h = ground (arith, lookup-delete k j m h.1, lookup-contains j m)

  pub delete-Distinct :
      (k : ℕ) (m : List (ℕ × V)) → Distinct (keys m) → Distinct (keys (delete k m))
  unfolding contains keys delete
  delete-Distinct k [] h = tt
  delete-Distinct k ((i, w) ∷ m) h =
      ground (arith, delete-Distinct k m h.1, contains-delete k i m h.1)

  pub length-delete :
      (k : ℕ) (m : List (ℕ × V))
      → suc (length (delete k m)) ≡ (if contains (keys m) k then length m else suc (length m))
  unfolding contains keys delete
  length-delete k [] = refl
  length-delete k ((i, w) ∷ m) = ground (arith, length-delete k m)

-- `slices.Index` and `slices.Delete`: the first occurrence goes.
unfoldable pub erase_first : ℕ → List ℕ → List ℕ
erase_first k [] = []
erase_first k (j ∷ ks) = if j == k then ks else j ∷ erase_first k ks

pub contains-erase_first :
    (k j : ℕ) (ks : List ℕ)
    → Distinct ks
    → contains (erase_first k ks) j ≡ (if k == j then false else contains ks j)
unfolding contains erase_first
contains-erase_first k j [] h = ground arith
contains-erase_first k j (i ∷ ks) h = ground (arith, contains-erase_first k j ks h.1)

pub erase_first-Distinct : (k : ℕ) (ks : List ℕ) → Distinct ks → Distinct (erase_first k ks)
unfolding contains erase_first
erase_first-Distinct k [] h = tt
erase_first-Distinct k (i ∷ ks) h =
    ground (arith, erase_first-Distinct k ks h.1, contains-erase_first k i ks h.1)

pub length-erase_first :
    (k : ℕ) (ks : List ℕ)
    → suc (length (erase_first k ks)) ≡ (if contains ks k then length ks else suc (length ks))
unfolding contains erase_first
length-erase_first k [] = refl
length-erase_first k (i ∷ ks) = ground (arith, length-erase_first k ks)

pub contains-snoc :
    (ks : List ℕ) (k j : ℕ) → contains (ks ++ (k ∷ [])) j ≡ (if k == j then true else contains ks j)
unfolding contains
contains-snoc [] k j = ground arith
contains-snoc (i ∷ ks) k j = ground (arith, contains-snoc ks k j)

pub snoc-Distinct :
    (ks : List ℕ) (k : ℕ) → Distinct ks → contains ks k ≡ false → Distinct (ks ++ (k ∷ []))
unfolding contains
snoc-Distinct [] k h new = (refl, tt)
snoc-Distinct (i ∷ ks) k h new = ground (arith, snoc-Distinct ks k h.1, contains-snoc ks k i)

pub lookup-keys {ℓ} :
    {V : Type ℓ} (k : ℕ) (m : List (ℕ × V)) (v : V)
    → lookup k m ≡ some v
    → contains (keys m) k ≡ true
unfolding contains keys lookup
lookup-keys k [] v h = cc
lookup-keys k ((i, w) ∷ m) v h = ground (arith, lookup-keys k m v)

pub lookup-no-keys {ℓ} :
    {V : Type ℓ} (k : ℕ) (m : List (ℕ × V)) → lookup k m ≡ none → contains (keys m) k ≡ false
unfolding contains keys lookup
lookup-no-keys k [] h = refl
lookup-no-keys k ((i, w) ∷ m) h = ground (arith, lookup-no-keys k m)

pub erase_first_self : (k : ℕ) (ks : List ℕ) → erase_first k (k ∷ ks) ≡ ks
unfolding erase_first
erase_first_self k ks = ground arith

-- A key that is not in the map is not deleted.
pub delete-absent {ℓ} : {V : Type ℓ} (k : ℕ) (m : List (ℕ × V)) → lookup k m ≡ none → delete k m ≡ m
unfolding lookup delete
delete-absent k [] h = refl
delete-absent k ((i, w) ∷ m) h = ground (arith, delete-absent k m)
