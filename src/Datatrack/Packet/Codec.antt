-- ===== src/Datatrack/Packet/Codec.antt =====
-- The markers and extensions of internal/datatrack/packet.go, written and read.
use server_sdk_go.Prelude.{
  ℕ, ◌≡◌, ◌≢◌, refl, false, List, [], ◌∷◌, ◌++◌, Option, none, some, ◌==◌, ==_refl, arith, ap, sym,
  ◌∙◌, append-nil, inl, inr, Option-cases,
}
use server_sdk_go.Datatrack.Packet.{
  FrameMarker, inter, start, final, single, Header, Dtp, marker_of, apply_marker, Extensions,
  no_extensions, apply_one, apply, read_extension, extensions_loop, extensions_of,
}

-- The marker that `apply` writes is the one that `markerOf` reads.
pub marker_of-apply_marker :
    {Ext : Type 0} (m : FrameMarker) (h : Header Ext) → marker_of (apply_marker m h) ≡ m
unfolding marker_of apply_marker
marker_of-apply_marker inter h = refl
marker_of-apply_marker start h = refl
marker_of-apply_marker final h = refl
marker_of-apply_marker single h = refl

-- What the extensions' codecs are documented to do: each writes its own id, reads back what it
-- wrote, and a header keeps its extensions in the order in which they were added.
pub record DtpLaws (dtp : Dtp) : Type 0 where
  pub ids_differ : dtp.user_timestamp_id ≢ dtp.e2ee_id
  pub e2ee_writes_id :
      (x : dtp.E2ee) (ext : dtp.Ext) → dtp.marshal_e2ee x ≡ some ext → dtp.ext_id ext ≡ dtp.e2ee_id
  pub e2ee_reads :
      (x : dtp.E2ee) (ext : dtp.Ext)
      → dtp.marshal_e2ee x ≡ some ext
      → dtp.unmarshal_e2ee ext ≡ some x
  pub timestamp_writes_id :
      (t : ℕ) (ext : dtp.Ext)
      → dtp.marshal_user_timestamp t ≡ some ext
      → dtp.ext_id ext ≡ dtp.user_timestamp_id
  pub timestamp_reads :
      (t : ℕ) (ext : dtp.Ext)
      → dtp.marshal_user_timestamp t ≡ some ext
      → dtp.unmarshal_user_timestamp ext ≡ some t
  pub added :
      (h : Header dtp.Ext) (ext : dtp.Ext)
      → dtp.add_extension h ext ≡ record h { extensions = h.extensions ++ (ext ∷ []) }

abbrev clear_extensions : {Ext : Type 0} → Header Ext → Header Ext
clear_extensions h = record h { extensions = [] }

module _ (dtp : Dtp) (laws : DtpLaws dtp) where
  open dtp use {Ext, E2ee, marshal_e2ee, marshal_user_timestamp}

  read_e2ee :
      (x : E2ee) (ext : Ext) (found : Extensions E2ee)
      → marshal_e2ee x ≡ some ext
      → read_extension dtp ext found ≡ record found { e2ee = some x }
  unfolding read_extension
  read_e2ee x ext found h =
      rw (laws.e2ee_writes_id x ext h, laws.e2ee_reads x ext h, ==_refl dtp.e2ee_id)

  read_timestamp :
      (t : ℕ) (ext : Ext) (found : Extensions E2ee)
      → marshal_user_timestamp t ≡ some ext
      → read_extension dtp ext found ≡ record found { user_timestamp = some t }
  unfolding read_extension
  read_timestamp t ext found h =
      let other : (dtp.user_timestamp_id == dtp.e2ee_id) ≡ false =
        ground (arith, laws.ids_differ) in
      rw (
        laws.timestamp_writes_id t ext h,
        laws.timestamp_reads t ext h,
        other,
        ==_refl dtp.user_timestamp_id,
      )

  -- What one value adds to a header: nothing, or the one extension that its codec wrote.
  abbrev Adds : {A : Type 0} → (A → Option Ext) → Option A → List Ext → Type 0
  Adds marshal_value none exts = exts ≡ []
  Adds marshal_value (some a) exts = (ext : Ext) × (marshal_value a ≡ some ext) × (exts ≡ ext ∷ [])

  apply_one-Adds :
      {A : Type 0} (marshal_value : A → Option Ext) (o : Option A) (h h' : Header Ext)
      → apply_one dtp marshal_value o h ≡ some h'
      → (exts : List Ext) × (h' ≡ record h { extensions = h.extensions ++ exts })
        × Adds marshal_value o exts
  unfolding apply_one
  apply_one-Adds marshal_value none h h' e = ([], ground (arith, append-nil h.extensions), refl)
  apply_one-Adds marshal_value (some a) h h' e = elim (Option-cases (marshal_value a)) [
    | inl failed ↦ absurd (ground arith)
    | inr (ext, written) ↦ (ext ∷ [], ground (arith, laws.added h ext), (ext, written, refl))
  ]

  read_added :
      (a : Option E2ee) (b : Option ℕ) (xs ys : List Ext)
      → Adds marshal_e2ee a xs
      → Adds marshal_user_timestamp b ys
      → extensions_loop dtp (xs ++ ys) no_extensions ≡ record { user_timestamp = b; e2ee = a }
  unfolding extensions_loop
  read_added none none xs ys p q = rw (p, q)
  read_added none (some t) xs ys p (y, wy, q) = rw (p, q) (read_timestamp t y no_extensions wy)
  read_added (some x) none xs ys (ex, wx, p) q = rw (p, q) (read_e2ee x ex no_extensions wx)
  read_added (some x) (some t) xs ys (ex, wx, p) (y, wy, q) =
      rw (p, q) (rw (read_e2ee x ex no_extensions wx) (read_timestamp t y _ wy))

  both_added :
      (h h1 h' : Header Ext) (xs ys : List Ext)
      → h.extensions ≡ []
      → h1 ≡ record h { extensions = h.extensions ++ xs }
      → h' ≡ record h1 { extensions = h1.extensions ++ ys }
      → (h'.extensions ≡ xs ++ ys) × (record h' { extensions = [] } ≡ h)
  both_added h h1 h' xs ys empty e1 e2 = (
    ap (λ (k : Header Ext). k.extensions) e2
        ∙ ap (λ (k : Header Ext). k.extensions ++ ys) e1
        ∙ ap (λ l. (l ++ xs) ++ ys) empty,
    ap (λ (k : Header Ext). clear_extensions k) e2
        ∙ ap (λ (k : Header Ext). clear_extensions k) e1
        ∙ (λ i. record h { extensions = sym empty i }),
  )

  -- What `extensionsOf` reads from a header whose only extensions are those of `Extensions.apply`
  -- is what was applied, and nothing else of the header changes: a value that is set is read back,
  -- and one that is not set stays unset.
  pub extensions_of-apply :
      (e : Extensions E2ee) (h h' : Header Ext)
      → h.extensions ≡ []
      → apply dtp e h ≡ some h'
      → (extensions_of dtp h' ≡ e) × (record h' { extensions = [] } ≡ h)
  unfolding apply extensions_of
  extensions_of-apply e h h' empty applied =
      elim (Option-cases (apply_one dtp marshal_e2ee e.e2ee h)) [
        | inl failed ↦ absurd (ground arith)
        | inr (h1, first) ↦
            let second : apply_one dtp marshal_user_timestamp e.user_timestamp h1 ≡ some h' =
              rw (first, apply) at applied in
            let (xs, e1, p) = apply_one-Adds marshal_e2ee e.e2ee h h1 first in
            let (ys, e2, q) = apply_one-Adds marshal_user_timestamp e.user_timestamp h1 h' second in
            let (all, rest) = both_added h h1 h' xs ys empty e1 e2 in
            (rw all (read_added e.e2ee e.user_timestamp xs ys p q), rest)
      ]
