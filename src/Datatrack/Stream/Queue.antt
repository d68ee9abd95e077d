-- ===== src/Datatrack/Stream/Queue.antt =====
-- The ring buffer of internal/datatrack/remote.go beside a queue of bounded length.
use server_sdk_go.Prelude.{
  ℕ, zero, suc, ◌+◌, ◌-◌, ◌%◌, ◌≤◌, ◌<◌, ◌≡◌, ◌≢◌, refl, ap, sym, ◌∙◌, false, List, [], ◌∷◌, ◌++◌,
  ltb, ◌==◌, if◌then◌else◌, length, get_or, set, drop, arith, Bool-cases, inl, inr, ==_iff, ltb→lt,
}
use native.Mathlib.Nat.{mod-eq_of_lt, mod-eq-sub-mod}
use server_sdk_go.Datatrack.Stream.{Stream, push, frame, next}

-- `i % size` for a sum `i` of two indices.
wrap : ℕ → ℕ → ℕ
wrap size i = if ltb i size then i else i - size

mod-wrap : (size i : ℕ) → 1 ≤ size → i < size + size → i % size ≡ wrap size i
unfolding wrap
mod-wrap size i pos lt = elim (Bool-cases (ltb i size)) [
  | inl t ↦ rw t (mod-eq_of_lt (ltb→lt i size t))
  | inr f ↦
      let le : size ≤ i = ground arith in
      rw f (mod-eq-sub-mod {n = i} {m = size} le ∙ mod-eq_of_lt (omega arith))
]

wrap-wrap :
    (size head k : ℕ)
    → head < size
    → k < size
    → wrap size (wrap size (head + 1) + k) ≡ wrap size (head + suc k)
unfolding wrap
wrap-wrap size head k h kc = ground arith

wrap_lt : (size head : ℕ) → head < size → wrap size (head + 1) < size
unfolding wrap
wrap_lt size head h = ground arith

wrap_here : (size head : ℕ) → head < size → wrap size (head + 0) ≡ head
unfolding wrap
wrap_here size head h = ground arith

wrap_below : (size head m : ℕ) → head < size → m < size → wrap size (head + m) < size
unfolding wrap
wrap_below size head m h ml = ground arith

wrap_differ :
    (size head k m : ℕ)
    → head < size
    → k < m
    → m < size
    → wrap size (head + k) ≢ wrap size (head + m)
unfolding wrap
wrap_differ size head k m h km ml e = ground arith

wrap_back : (size head : ℕ) → head < size → head ≡ wrap size (wrap size (head + 1) + (size - 1))
unfolding wrap
wrap_back size head h = ground arith

module _ {A : Type 0} where
  length-set : (xs : List A) (j : ℕ) (v : A) → length (set xs j v) ≡ length xs
  length-set [] j v = refl
  length-set (x ∷ xs) zero v = refl
  length-set (x ∷ xs) (suc j) v = ap suc (length-set xs j v)

  get_or-set :
      (xs : List A) (i j : ℕ) (v d : A)
      → j < length xs
      → get_or (set xs j v) i d ≡ (if i == j then v else get_or xs i d)
  get_or-set [] i j v d lt = absurd (omega arith)
  get_or-set (x ∷ xs) zero zero v d lt = refl
  get_or-set (x ∷ xs) zero (suc j) v d lt = ground arith
  get_or-set (x ∷ xs) (suc i) zero v d lt = ground arith
  get_or-set (x ∷ xs) (suc i) (suc j) v d lt = ground (arith, get_or-set xs i j v d)

  get_or-set_self : (xs : List A) (j : ℕ) (v d : A) → j < length xs → get_or (set xs j v) j d ≡ v
  get_or-set_self xs j v d lt = ground (arith, get_or-set xs j j v d lt)

  get_or-set_other :
      (xs : List A) (i j : ℕ) (v d : A)
      → j < length xs
      → i ≢ j
      → get_or (set xs j v) i d ≡ get_or xs i d
  get_or-set_other xs i j v d lt ne = ground (arith, get_or-set xs i j v d lt)

  -- The `n` entries from `head` on, in a ring of `size` entries.
  window : ℕ → (ℕ → A) → ℕ → ℕ → List A
  window size read head zero = []
  window size read head (suc n) = read head ∷ window size read (wrap size (head + 1)) n

  window-snoc :
      (size : ℕ) (read : ℕ → A) (head n : ℕ)
      → head < size
      → n < size
      → window size read head (suc n)
        ≡ window size read head n ++ (read (wrap size (head + n)) ∷ [])
  unfolding window
  window-snoc size read head zero h nc = ap (λ i. read i ∷ []) (sym (wrap_here size head h))
  window-snoc size read head (suc n) h nc =
      ap (λ rest. read head ∷ rest)
        (window-snoc size read (wrap size (head + 1)) n (wrap_lt size head h) (omega arith)
          ∙ ap (λ i. window size read (wrap size (head + 1)) n ++ (read i ∷ []))
              (wrap-wrap size head n h (omega arith)))

  window_agree :
      (size : ℕ) (r r' : ℕ → A) (head n : ℕ)
      → head < size
      → n ≤ size
      → ((k : ℕ) → k < n → r (wrap size (head + k)) ≡ r' (wrap size (head + k)))
      → window size r head n ≡ window size r' head n
  unfolding window
  window_agree size r r' head zero h nc same = refl
  window_agree size r r' head (suc n) h nc same =
      let first : r head ≡ r' head =
        ap r (sym (wrap_here size head h)) ∙ same 0 (omega arith) ∙ ap r' (wrap_here size head h) in
      let rest : window size r (wrap size (head + 1)) n ≡ window size r' (wrap size (head + 1)) n =
        window_agree size r r' (wrap size (head + 1)) n (wrap_lt size head h) (omega arith) (λ k lt.
          ap r (wrap-wrap size head k h (omega arith))
          ∙ same (suc k) (omega arith)
          ∙ ap r' (sym (wrap-wrap size head k h (omega arith)))) in
      cc (first, rest)

  length-window : (size : ℕ) (read : ℕ → A) (head n : ℕ) → length (window size read head n) ≡ n
  unfolding window
  length-window size read head zero = refl
  length-window size read head (suc n) = ap suc (length-window size read (wrap size (head + 1)) n)

  -- Entries of the window other than its `m`-th are not the ring's entry at `m`.
  window-set :
      (buf : List A) (z v : A) (head n m : ℕ)
      → head < length buf
      → n ≤ m
      → m < length buf
      → window (length buf) (λ i. get_or (set buf (wrap (length buf) (head + m)) v) i z) head n
        ≡ window (length buf) (λ i. get_or buf i z) head n
  window-set buf z v head n m h nm ml =
      window_agree (length buf) _ _ head n h (omega arith) (λ k lt.
        let j = wrap (length buf) (head + m) in
        let i = wrap (length buf) (head + k) in
        get_or-set_other buf i j v z (wrap_below (length buf) head m h ml)
          (wrap_differ (length buf) head k m h (omega arith) ml))

  -- The frames that wait in the buffer, the oldest first.
  pub contents : A → Stream A → List A
  contents z s = window (length s.buf) (λ i. get_or s.buf i z) s.head s.n

  unfoldable pub IsValid : Stream A → Type 0
  IsValid s = (s.head < length s.buf) × (s.n ≤ length s.buf)

  -- A queue of at most `size` entries that drops its oldest one for a new one.
  pub bounded : ℕ → A → List A → List A
  bounded size new q = (if length q == size then drop 1 q else q) ++ (new ∷ [])

  snoc-set :
      (buf : List A) (z v : A) (head n : ℕ)
      → head < length buf
      → n < length buf
      → window
          (length buf)
          (λ i. get_or (set buf (wrap (length buf) (head + n)) v) i z)
          head
          (suc n)
        ≡ window (length buf) (λ i. get_or buf i z) head n ++ (v ∷ [])
  snoc-set buf z v head n h nl =
      let at = wrap (length buf) (head + n) in
      let last : get_or (set buf at v) at z ≡ v =
        get_or-set_self buf at v z (wrap_below (length buf) head n h nl) in
      window-snoc (length buf) (λ i. get_or (set buf at v) i z) head n h nl
      ∙ ap (λ w. w ++ (get_or (set buf at v) at z ∷ []))
          (window-set buf z v head n n h (omega arith) nl)
      ∙ ap (λ x. window (length buf) (λ i. get_or buf i z) head n ++ (x ∷ [])) last

  not_full :
      (z f : A) (s : Stream A)
      → IsValid s
      → s.closed ≡ false
      → s.n < length s.buf
      → (contents z (push f s) ≡ contents z s ++ (f ∷ [])) × IsValid (push f s)
  unfolding push contents IsValid
  not_full z f s v running lt =
      let size = length s.buf in
      let at : (s.head + s.n) % size ≡ wrap size (s.head + s.n) =
        mod-wrap size (s.head + s.n) (omega (arith, v.0)) (omega (arith, v.0, v.1)) in
      let j = wrap size (s.head + s.n) in
      let e : push f s ≡ record s { buf = set s.buf j f; n = s.n + 1 } =
        ground (arith, running, at) in
      let same : window (length (set s.buf j f)) (λ i. get_or (set s.buf j f) i z) s.head (s.n + 1)
          ≡ contents z s ++ (f ∷ []) =
        ap (λ c. window c (λ i. get_or (set s.buf j f) i z) s.head (s.n + 1)) (length-set s.buf j f)
        ∙ ap (window size (λ i. get_or (set s.buf j f) i z) s.head) (omega arith)
        ∙ snoc-set s.buf z f s.head s.n v.0 lt in
      rw e (same, (omega (arith, v.0, length-set s.buf j f), omega (arith, length-set s.buf j f)))

  full :
      (z f : A) (s : Stream A)
      → IsValid s
      → s.closed ≡ false
      → s.n ≡ length s.buf
      → (contents z (push f s) ≡ drop 1 (contents z s) ++ (f ∷ [])) × IsValid (push f s)
  unfolding push contents IsValid window
  full z f s v running eq =
      let size = length s.buf in
      let h1 = wrap size (s.head + 1) in
      let p = size - 1 in
      let at : (s.head + 1) % size ≡ h1 =
        mod-wrap size (s.head + 1) (omega (arith, v.0)) (omega (arith, v.0)) in
      let b = set s.buf s.head f in
      let e : push f s ≡ record s { buf = b; head = h1 } = ground (arith, running, at) in
      let count : s.n ≡ suc p = omega (arith, v.0) in
      let back : s.head ≡ wrap size (h1 + p) = wrap_back size s.head v.0 in
      let low : h1 < size = wrap_lt size s.head v.0 in
      let same : window (length b) (λ i. get_or b i z) h1 s.n ≡ drop 1 (contents z s) ++ (f ∷ []) =
        ap (λ c. window c (λ i. get_or b i z) h1 s.n) (length-set s.buf s.head f)
        ∙ ap (window size (λ i. get_or b i z) h1) count
        ∙ ap (λ x. window size (λ i. get_or (set s.buf x f) i z) h1 (suc p)) back
        ∙ snoc-set s.buf z f h1 p low (omega (arith, v.0))
        ∙ ap (λ c. drop 1 (window size (λ i. get_or s.buf i z) s.head c) ++ (f ∷ [])) (sym count) in
      rw e (
        same,
        (
          omega (arith, low, length-set s.buf s.head f),
          omega (arith, v.1, length-set s.buf s.head f),
        ),
      )

  length-contents : (z : A) (s : Stream A) → length (contents z s) ≡ s.n
  unfolding contents
  length-contents z s = length-window (length s.buf) (λ i. get_or s.buf i z) s.head s.n

  room :
      (z : A) (s : Stream A)
      → IsValid s
      → (length (contents z s) == length s.buf) ≡ false
      → s.n < length s.buf
  unfolding IsValid
  room z s v t = ground (arith, length-contents z s, v.1, t)

  -- A push on a stream that is not closed appends the frame to the frames that wait, and drops the
  -- oldest of them when the buffer is full; the indices stay in range.
  pub push-bounded :
      (z f : A) (s : Stream A)
      → IsValid s
      → s.closed ≡ false
      → (contents z (push f s) ≡ bounded (length s.buf) f (contents z s)) × IsValid (push f s)
  unfolding bounded
  push-bounded z f s v running =
      let len : length (contents z s) ≡ s.n = length-contents z s in
      elim (Bool-cases (length (contents z s) == length s.buf)) [
        | inl t ↦ rw t (full z f s v running (sym len ∙ (==_iff _ _).0 t))
        | inr t ↦ rw t (not_full z f s v running (room z s v t))
      ]

  -- A turn of the reader's loop on a stream with frames waiting takes the oldest one off, and leaves
  -- the others in their order.
  pub next_lem :
      (z : A) (s : Stream A)
      → IsValid s
      → 1 ≤ s.n
      → (contents z s ≡ get_or s.buf s.head z ∷ contents z (next z s).0)
        × ((next z s).1 ≡ frame (get_or s.buf s.head z))
        × IsValid (next z s).0
  unfolding next contents IsValid window
  next_lem z s v waiting =
      let size = length s.buf in
      let h1 = wrap size (s.head + 1) in
      let at : (s.head + 1) % size ≡ h1 =
        mod-wrap size (s.head + 1) (omega (arith, v.0)) (omega (arith, v.0)) in
      let b = set s.buf s.head z in
      let e : next z s
          ≡ (record s { buf = b; head = h1; n = s.n - 1 }, frame (get_or s.buf s.head z)) =
        ground (arith, waiting, at) in
      let count : s.n ≡ suc (s.n - 1) = omega arith in
      let low : h1 < size = wrap_lt size s.head v.0 in
      let rest : window (length b) (λ i. get_or b i z) h1 (s.n - 1)
          ≡ window size (λ i. get_or s.buf i z) h1 (s.n - 1) =
        ap (λ c. window c (λ i. get_or b i z) h1 (s.n - 1)) (length-set s.buf s.head z)
        ∙ ap (λ x. window size (λ i. get_or (set s.buf x z) i z) h1 (s.n - 1))
            (wrap_back size s.head v.0)
        ∙ window-set s.buf z z h1 (s.n - 1) (size - 1) low (omega (arith, v.1))
            (omega (arith, v.0)) in
      let whole : window size (λ i. get_or s.buf i z) s.head s.n
          ≡ get_or s.buf s.head z ∷ window (length b) (λ i. get_or b i z) h1 (s.n - 1) =
        ap (window size (λ i. get_or s.buf i z) s.head) count
        ∙ ap (λ l. get_or s.buf s.head z ∷ l) (sym rest) in
      rw e (
        whole,
        refl,
        (
          omega (arith, low, length-set s.buf s.head z),
          omega (arith, v.1, length-set s.buf s.head z),
        ),
      )
