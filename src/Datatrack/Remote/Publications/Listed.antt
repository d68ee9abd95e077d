-- ===== src/Datatrack/Remote/Publications/Listed.antt =====
-- Which tracks the manager of internal/datatrack/remote.go keeps of those that an update does not list.
use server_sdk_go.Prelude.{
  ℕ, ◌≡◌, refl, sym, ◌∙◌, true, false, not, ◌||◌, List, [], ◌∷◌, if◌then◌else◌, get_elem?, ◌⊎◌, All,
  arith, inl, inr, Bool-cases,
}
use mathlib.Core.Path.{subst}
use server_sdk_go.Datatrack.Proto.{Info}
use server_sdk_go.Datatrack.Remote.Track.{RemoteTrack}
use server_sdk_go.Datatrack.Remote.Publications.{
  Update, is_published_by, is_in_update, is_gone, unpublish_track, visit_descriptors, remove_absent,
}
use server_sdk_go.Datatrack.Remote.Publications.Ended.{
  IsEnded, is_published_by-unpublish_track, unpublish_track-kept, unpublish_track-IsEnded,
  IsEnded-unpublish_track,
}

-- The entries that stay: those of other publishers' tracks, and those that the update lists.
abbrev pub listed_only :
    List ℕ → List Info → List RemoteTrack → List (List ℕ × ℕ) → List (List ℕ × ℕ)
listed_only publisher infos tracks [] = []
listed_only publisher infos tracks ((sid, p) ∷ rest) =
    if not (is_published_by publisher (get_elem? tracks p)) || is_in_update infos sid
    then (sid, p) ∷ listed_only publisher infos tracks rest
    else listed_only publisher infos tracks rest

-- An entry is one of those that stay, or its track is ended.
abbrev pub IsDealt : List ℕ → List Info → List RemoteTrack → List RemoteTrack → List ℕ × ℕ → Type 0
IsDealt publisher infos before after entry =
    (is_published_by publisher (get_elem? before entry.1) ≡ false)
    ⊎ ((is_in_update infos entry.0 ≡ true) ⊎ IsEnded after entry.1)

module _ (publisher : List ℕ) (infos : List Info) where
  listed_only-unpublish_track :
      (q : ℕ) (u : Update) (ds : List (List ℕ × ℕ))
      → listed_only publisher infos (unpublish_track q u).manager.tracks ds
        ≡ listed_only publisher infos u.manager.tracks ds
  listed_only-unpublish_track q u [] = refl
  listed_only-unpublish_track q u ((sid, p) ∷ rest) =
      rw (is_published_by-unpublish_track publisher p q u, listed_only-unpublish_track q u rest)
        refl

  IsDealt-before :
      (q : ℕ) (u : Update) (after : List RemoteTrack) (ds : List (List ℕ × ℕ))
      → All (IsDealt publisher infos (unpublish_track q u).manager.tracks after) ds
      → All (IsDealt publisher infos u.manager.tracks after) ds
  IsDealt-before q u after [] h = tt
  IsDealt-before q u after ((sid, p) ∷ rest) h = (
    rw (← is_published_by-unpublish_track publisher p q u) h.0,
    IsDealt-before q u after rest h.1,
  )

  -- What the visit of an entry gives, by whether its track is gone.
  visit_gone :
      (sid : List ℕ) (p : ℕ) (rest : List (List ℕ × ℕ)) (u : Update)
      → is_gone publisher infos sid p u ≡ true
      → visit_descriptors publisher infos ((sid, p) ∷ rest) u
        ≡ visit_descriptors publisher infos rest (unpublish_track p u)
  unfolding visit_descriptors
  visit_gone sid p rest u gone = ground arith

  visit_stays :
      (sid : List ℕ) (p : ℕ) (rest : List (List ℕ × ℕ)) (u : Update)
      → is_gone publisher infos sid p u ≡ false
      → visit_descriptors publisher infos ((sid, p) ∷ rest) u ≡ (
        (sid, p) ∷ (visit_descriptors publisher infos rest u).0,
        (visit_descriptors publisher infos rest u).1,
      )
  unfolding visit_descriptors
  visit_stays sid p rest u stays = ground arith

  gone_lem :
      (sid : List ℕ) (p : ℕ) (u : Update)
      → is_gone publisher infos sid p u ≡ true
      → (is_published_by publisher (get_elem? u.manager.tracks p) ≡ true)
        × (is_in_update infos sid ≡ false)
  unfolding is_gone
  gone_lem sid p u h = ground arith

  stays_lem :
      (sid : List ℕ) (p : ℕ) (u : Update)
      → is_gone publisher infos sid p u ≡ false
      → (is_published_by publisher (get_elem? u.manager.tracks p) ≡ false)
        ⊎ (is_in_update infos sid ≡ true)
  unfolding is_gone
  stays_lem sid p u h =
      elim (Bool-cases (is_published_by publisher (get_elem? u.manager.tracks p))) [
        | inr other ↦ inl other
        | inl own ↦ inr (ground arith)
      ]

  visit_descriptors-listed_only :
      (ds : List (List ℕ × ℕ)) (u : Update)
      → (visit_descriptors publisher infos ds u).0 ≡ listed_only publisher infos u.manager.tracks ds
  unfolding visit_descriptors
  visit_descriptors-listed_only [] u = refl
  visit_descriptors-listed_only ((sid, p) ∷ rest) u =
      elim (Bool-cases (is_gone publisher infos sid p u)) [
        | inl gone ↦
            let (own, absent) = gone_lem sid p u gone in
            let ih = visit_descriptors-listed_only rest (unpublish_track p u) in
            rw (visit_gone sid p rest u gone, own, absent, ih)
              (listed_only-unpublish_track p u rest)
        | inr stays ↦
            let ih = visit_descriptors-listed_only rest u in
            elim (stays_lem sid p u stays) [
              | inl other ↦ rw (visit_stays sid p rest u stays, ih, other) refl
              | inr listed ↦ ground (arith, visit_stays sid p rest u stays, ih)
            ]
      ]

  visit_descriptors-kept :
      (p : ℕ) (ds : List (List ℕ × ℕ)) (u : Update)
      → is_published_by publisher (get_elem? u.manager.tracks p) ≡ false
      → get_elem? (visit_descriptors publisher infos ds u).1.manager.tracks p
        ≡ get_elem? u.manager.tracks p
  unfolding visit_descriptors
  visit_descriptors-kept p [] u other = refl
  visit_descriptors-kept p ((sid, q) ∷ rest) u other =
      elim (Bool-cases (is_gone publisher infos sid q u)) [
        | inl gone ↦
            let same = is_published_by-unpublish_track publisher p q u in
            rw (visit_gone sid q rest u gone) (
              visit_descriptors-kept p rest (unpublish_track q u) (same ∙ other)
              ∙ unpublish_track-kept publisher p q u (gone_lem sid q u gone).0 other)
        | inr stays ↦ rw (visit_stays sid q rest u stays) (visit_descriptors-kept p rest u other)
      ]

  IsEnded-visit_descriptors :
      (p : ℕ) (ds : List (List ℕ × ℕ)) (u : Update)
      → IsEnded u.manager.tracks p
      → IsEnded (visit_descriptors publisher infos ds u).1.manager.tracks p
  unfolding visit_descriptors
  IsEnded-visit_descriptors p [] u h = h
  IsEnded-visit_descriptors p ((sid, q) ∷ rest) u h =
      elim (Bool-cases (is_gone publisher infos sid q u)) [
        | inl gone ↦ rw (visit_gone sid q rest u gone) (
            IsEnded-visit_descriptors p rest (unpublish_track q u)
              (IsEnded-unpublish_track p q u h))
        | inr stays ↦ rw (visit_stays sid q rest u stays) (IsEnded-visit_descriptors p rest u h)
      ]

  visit_descriptors-IsDealt :
      (ds : List (List ℕ × ℕ)) (u : Update)
      → All
          (IsDealt publisher infos u.manager.tracks
            (visit_descriptors publisher infos ds u).1.manager.tracks)
          ds
  unfolding visit_descriptors
  visit_descriptors-IsDealt [] u = tt
  visit_descriptors-IsDealt ((sid, p) ∷ rest) u =
      let all_dealt = λ (out : List (List ℕ × ℕ) × Update).
        All (IsDealt publisher infos u.manager.tracks out.1.manager.tracks) ((sid, p) ∷ rest) in
      elim (Bool-cases (is_gone publisher infos sid p u)) [
        | inl gone ↦
            let u1 = unpublish_track p u in
            let after = (visit_descriptors publisher infos rest u1).1.manager.tracks in
            let ended = unpublish_track-IsEnded p u publisher (gone_lem sid p u gone).0 in
            subst all_dealt (sym (visit_gone sid p rest u gone)) (
              inr (inr (IsEnded-visit_descriptors p rest u1 ended)),
              IsDealt-before p u after rest (visit_descriptors-IsDealt rest u1),
            )
        | inr stays ↦ subst all_dealt (sym (visit_stays sid p rest u stays)) (
          elim (stays_lem sid p u stays) [ inl other ↦ inl other | inr listed ↦ inr (inl listed) ],
          visit_descriptors-IsDealt rest u,
        )
      ]

  -- Behind the infos of a publisher's update, exactly the entries stay in the manager, in their order,
  -- whose track is another publisher's or whose SID the update lists; each track of the publisher that
  -- the update does not list is unpublished, without a subscription, a waiter or a stream; and a track
  -- that is not the publisher's is as it was.
  pub remove_absent-listed_only :
      (u : Update) (p : ℕ)
      → let m = u.manager in
        let m' = (remove_absent publisher infos u).manager in
        (m'.descriptors ≡ listed_only publisher infos m.tracks m.descriptors)
        × All (IsDealt publisher infos m.tracks m'.tracks) m.descriptors
        × ((is_published_by publisher (get_elem? m.tracks p) ≡ true)
            ⊎ (get_elem? m'.tracks p ≡ get_elem? m.tracks p))
  unfolding remove_absent
  remove_absent-listed_only u p =
      let ds = u.manager.descriptors in
      (
        visit_descriptors-listed_only ds u,
        visit_descriptors-IsDealt ds u,
        elim (Bool-cases (is_published_by publisher (get_elem? u.manager.tracks p))) [
          | inl own ↦ inl own
          | inr other ↦ inr (visit_descriptors-kept p ds u other)
        ],
      )
