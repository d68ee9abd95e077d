-- ===== src/E2ee/Nalu/Stable.antt =====
-- The finders of e2ee/codec_video.go on two samples that begin alike.
use server_sdk_go.Prelude.{
  ℕ, ◌+◌, ◌≤◌, ◌≡◌, refl, Bool, true, false, List, [], ◌∷◌, ◌++◌, Option, some, none, length,
  get_or, arith, get_or-append, length-append, ap, sym, ◌∙◌,
}
use server_sdk_go.E2ee.Nalu.{
  long_code, short_code, nalu_loop, find_nalu_indices, first_slice, is_h264_slice, is_h265_slice,
  find_h264_unencrypted_bytes, find_h265_unencrypted_bytes,
}

-- One pass that reads the slice's header where it finds the start code.
pick : (long short : Bool) → Option ℕ → Option ℕ → Option ℕ → Option ℕ
pick true short x y z = x
pick false true x y z = y
pick false false x y z = z

or_else : Bool → ℕ → Option ℕ → Option ℕ
or_else true n o = some n
or_else false n o = o

scan : (ℕ → Bool) → ℕ → List ℕ → Option ℕ
scan p i (a ∷ b ∷ c ∷ e ∷ []) =
    pick false (short_code a b c) none (or_else (p e) (i + 3 + 2) none) none
scan p i (a ∷ b ∷ c ∷ e ∷ r ∷ rest) =
    pick (long_code a b c e) (short_code a b c)
      (or_else (p r) (i + 4 + 2) (scan p (i + 4) (r ∷ rest)))
      (or_else (p e) (i + 3 + 2) (scan p (i + 3) (e ∷ r ∷ rest)))
      (scan p (i + 1) (b ∷ c ∷ e ∷ r ∷ rest))
scan p i (a ∷ b ∷ c ∷ []) = none
scan p i (a ∷ b ∷ []) = none
scan p i (a ∷ []) = none
scan p i [] = none

pick-some :
    (l s : Bool) (x y z x' y' z' : Option ℕ) (n : ℕ)
    → (x ≡ some n → x' ≡ some n)
    → (y ≡ some n → y' ≡ some n)
    → (z ≡ some n → z' ≡ some n)
    → pick l s x y z ≡ some n
    → pick l s x' y' z' ≡ some n
unfolding pick
pick-some true s x y z x' y' z' n f g h e = f e
pick-some false true x y z x' y' z' n f g h e = g e
pick-some false false x y z x' y' z' n f g h e = h e

or_else-some :
    (b : Bool) (k : ℕ) (o o' : Option ℕ) (n : ℕ)
    → (o ≡ some n → o' ≡ some n)
    → or_else b k o ≡ some n
    → or_else b k o' ≡ some n
unfolding or_else
or_else-some true k o o' n f e = e
or_else-some false k o o' n f e = f e

-- What is found stands at least five bytes behind `i`.
Beyond : ℕ → Option ℕ → Type 0
Beyond i o = (n : ℕ) → o ≡ some n → i + 5 ≤ n

pick-Beyond :
    (i : ℕ) (l s : Bool) (x y z : Option ℕ)
    → Beyond i x
    → Beyond i y
    → Beyond i z
    → Beyond i (pick l s x y z)
unfolding pick
pick-Beyond i true s x y z f g h = f
pick-Beyond i false true x y z f g h = g
pick-Beyond i false false x y z f g h = h

none-Beyond : (i : ℕ) → Beyond i none
unfolding Beyond
none-Beyond i n e = absurd (ground arith)

or_else-Beyond :
    (i : ℕ) (b : Bool) (k : ℕ) (o : Option ℕ) → i + 5 ≤ k → Beyond i o → Beyond i (or_else b k o)
unfolding Beyond or_else
or_else-Beyond i true k o le f n e = ground arith
or_else-Beyond i false k o le f n e = f n e

later-Beyond : (i k : ℕ) (o : Option ℕ) → Beyond (i + k) o → Beyond i o
unfolding Beyond
later-Beyond i k o f n e = omega (arith, f n e)

scan-Beyond : (p : ℕ → Bool) (i : ℕ) (l : List ℕ) → Beyond i (scan p i l)
unfolding scan
scan-Beyond p i [] = none-Beyond i
scan-Beyond p i (a ∷ []) = none-Beyond i
scan-Beyond p i (a ∷ b ∷ []) = none-Beyond i
scan-Beyond p i (a ∷ b ∷ c ∷ []) = none-Beyond i
scan-Beyond p i (a ∷ b ∷ c ∷ e ∷ []) =
    pick-Beyond i _ _ _ _ _ (none-Beyond i)
      (or_else-Beyond i (p e) _ none (omega arith) (none-Beyond i)) (none-Beyond i)
scan-Beyond p i (a ∷ b ∷ c ∷ e ∷ r ∷ l) =
    pick-Beyond i _ _ _ _ _
      (or_else-Beyond i (p r) _ _ (omega arith)
        (later-Beyond i 4 _ (scan-Beyond p (i + 4) (r ∷ l))))
      (or_else-Beyond i (p e) _ _ (omega arith)
        (later-Beyond i 3 _ (scan-Beyond p (i + 3) (e ∷ r ∷ l))))
      (later-Beyond i 1 _ (scan-Beyond p (i + 1) (b ∷ c ∷ e ∷ r ∷ l)))

scan_ge : (p : ℕ → Bool) (i : ℕ) (l : List ℕ) (n : ℕ) → scan p i l ≡ some n → i + 5 ≤ n
unfolding Beyond
scan_ge p i l n e = scan-Beyond p i l n e

-- What stands behind the bytes that the finder skips is not read.
scan_stable :
    (p : ℕ → Bool) (i : ℕ) (h x y : List ℕ) (n : ℕ)
    → n ≤ i + length h
    → scan p i (h ++ x) ≡ some n
    → scan p i (h ++ y) ≡ some n
unfolding scan
scan_stable p i [] x y n le f = absurd (omega (arith, scan_ge p i x n f))
scan_stable p i (a ∷ []) x y n le f = absurd (omega (arith, scan_ge p i (a ∷ x) n f))
scan_stable p i (a ∷ b ∷ []) x y n le f = absurd (omega (arith, scan_ge p i (a ∷ b ∷ x) n f))
scan_stable p i (a ∷ b ∷ c ∷ []) x y n le f =
    absurd (omega (arith, scan_ge p i (a ∷ b ∷ c ∷ x) n f))
scan_stable p i (a ∷ b ∷ c ∷ e ∷ []) x y n le f =
    absurd (omega (arith, scan_ge p i (a ∷ b ∷ c ∷ e ∷ x) n f))
scan_stable p i (a ∷ b ∷ c ∷ e ∷ r ∷ h) x y n le f =
    pick-some _ _ _ _ _ _ _ _ n
      (or_else-some (p r) _ _ _ n (scan_stable p (i + 4) (r ∷ h) x y n (omega arith)))
      (or_else-some (p e) _ _ _ n (scan_stable p (i + 3) (e ∷ r ∷ h) x y n (omega arith)))
      (scan_stable p (i + 1) (b ∷ c ∷ e ∷ r ∷ h) x y n (omega arith)) f

-- `l` is what `d` holds from `i`.
Reads : List ℕ → ℕ → List ℕ → Type 0
Reads d i l = (length d ≡ i + length l) × ((k : ℕ) → get_or d (i + k) 0 ≡ get_or l k 0)

Reads-skip :
    (d : List ℕ) (i n : ℕ) (pre l : List ℕ)
    → n ≡ length pre
    → Reads d i (pre ++ l)
    → Reads d (i + n) l
unfolding Reads
Reads-skip d i n pre l e r = (
  omega (arith, r.0, length-append pre l),
  λ k.
      ap (λ z. get_or d z 0) (omega arith)
      ∙ r.1 (n + k)
      ∙ get_or-append pre l (n + k) k 0 (omega arith),
)

pick-slice :
    (p : ℕ → Bool) (d : List ℕ) (l s : Bool) (x y z : List ℕ)
    → first_slice p d (elim l [ true ↦ x | false ↦ elim s [ true ↦ y | false ↦ z ] ])
      ≡ pick l s (first_slice p d x) (first_slice p d y) (first_slice p d z)
unfolding pick
pick-slice p d true s x y z = refl
pick-slice p d false true x y z = refl
pick-slice p d false false x y z = refl

slice_here :
    (p : ℕ → Bool) (d : List ℕ) (i : ℕ) (x : ℕ) (l is : List ℕ)
    → Reads d i (x ∷ l)
    → first_slice p d (i ∷ is) ≡ or_else (p x) (i + 2) (first_slice p d is)
unfolding first_slice Reads or_else
slice_here p d i x l is r = ground (arith, r.0, r.1 0)

pick-cong :
    (l s : Bool) {x y z x' y' z' : Option ℕ}
    → x ≡ x'
    → y ≡ y'
    → z ≡ z'
    → pick l s x y z ≡ pick l s x' y' z'
pick-cong l s {x} {y} {z} {x'} {y'} {z'} e f g = cc (e, f, g)

-- The loop over the indices and the one pass agree.
slice-scan :
    (p : ℕ → Bool) (d : List ℕ) (i : ℕ) (l : List ℕ)
    → Reads d i l
    → first_slice p d (nalu_loop i l) ≡ scan p i l
unfolding first_slice nalu_loop scan
slice-scan p d i [] r = refl
slice-scan p d i (a ∷ []) r = refl
slice-scan p d i (a ∷ b ∷ []) r = refl
slice-scan p d i (a ∷ b ∷ c ∷ []) r = refl
slice-scan p d i (a ∷ b ∷ c ∷ e ∷ []) r =
    pick-slice p d false (short_code a b c) [] _ _
    ∙ pick-cong false (short_code a b c) refl
        (slice_here p d (i + 3) e [] [] (Reads-skip d i 3 (a ∷ b ∷ c ∷ []) (e ∷ []) refl r)) refl
slice-scan p d i (a ∷ b ∷ c ∷ e ∷ x ∷ l) r =
    pick-slice p d (long_code a b c e) (short_code a b c) _ _ _
    ∙ pick-cong (long_code a b c e) (short_code a b c)
        (slice_here p d (i + 4) x l _ at_four
          ∙ ap (or_else (p x) (i + 4 + 2)) (slice-scan p d (i + 4) (x ∷ l) at_four))
        (slice_here p d (i + 3) e (x ∷ l) _ at_three
          ∙ ap (or_else (p e) (i + 3 + 2)) (slice-scan p d (i + 3) (e ∷ x ∷ l) at_three))
        (slice-scan p d (i + 1) (b ∷ c ∷ e ∷ x ∷ l)
          (Reads-skip d i 1 (a ∷ []) (b ∷ c ∷ e ∷ x ∷ l) refl r))
  where
    at_four : Reads d (i + 4) (x ∷ l)
    at_four = Reads-skip d i 4 (a ∷ b ∷ c ∷ e ∷ []) (x ∷ l) refl r

    at_three : Reads d (i + 3) (e ∷ x ∷ l)
    at_three = Reads-skip d i 3 (a ∷ b ∷ c ∷ []) (e ∷ x ∷ l) refl r

Reads-self : (d : List ℕ) → Reads d 0 d
unfolding Reads
Reads-self d = (omega arith, λ k. ap (λ z. get_or d z 0) (omega arith))

-- A finder over the first slice gives the same place when the bytes from that place on change.
first_slice_stable :
    (p : ℕ → Bool) (h x y : List ℕ) (n : ℕ)
    → n ≤ length h
    → first_slice p (h ++ x) (find_nalu_indices (h ++ x)) ≡ some n
    → first_slice p (h ++ y) (find_nalu_indices (h ++ y)) ≡ some n
unfolding find_nalu_indices
first_slice_stable p h x y n le f =
    slice-scan p (h ++ y) 0 (h ++ y) (Reads-self (h ++ y))
    ∙ scan_stable p 0 h x y n (omega arith)
        (sym (slice-scan p (h ++ x) 0 (h ++ x) (Reads-self (h ++ x))) ∙ f)

pub find_h264_stable :
    (h x y : List ℕ) (n : ℕ)
    → n ≤ length h
    → find_h264_unencrypted_bytes (h ++ x) ≡ some n
    → find_h264_unencrypted_bytes (h ++ y) ≡ some n
unfolding find_h264_unencrypted_bytes
find_h264_stable h x y n le f = first_slice_stable is_h264_slice h x y n le f

pub find_h265_stable :
    (h x y : List ℕ) (n : ℕ)
    → n ≤ length h
    → find_h265_unencrypted_bytes (h ++ x) ≡ some n
    → find_h265_unencrypted_bytes (h ++ y) ≡ some n
unfolding find_h265_unencrypted_bytes
find_h265_stable h x y n le f = first_slice_stable is_h265_slice h x y n le f
