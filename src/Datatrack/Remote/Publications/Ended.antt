-- ===== src/Datatrack/Remote/Publications/Ended.antt =====
-- What the end of one track does to the tracks of a publisher, in internal/datatrack/remote.go.
use server_sdk_go.Prelude.{
  ℕ, ◌≡◌, refl, ◌∙◌, true, false, List, [], some, ◌==◌, modify, get_elem?, get_elem?-modify_same,
  get_elem?-modify_other, arith, inl, inr, Bool-cases, Option-cases,
}
use server_sdk_go.Datatrack.Remote.Track.{RemoteTrack, unsubscribed, unpublished_track, end_track}
use server_sdk_go.Datatrack.Remote.Publications.{Update, is_published_by, unpublish_track}

-- The track at `p` is unpublished, without a subscription, and nobody waits for or reads from it.
abbrev pub IsEnded : List RemoteTrack → ℕ → Type 0
IsEnded tracks p =
    (t : RemoteTrack) × (get_elem? tracks p ≡ some t)
    × (t.broken ≡ true)
    × (t.subscription ≡ unsubscribed)
    × (t.waiters ≡ [])
    × (t.streams ≡ [])

pub is_published_by-modify :
    (publisher : List ℕ) (p q : ℕ) (t t' : RemoteTrack) (tracks : List RemoteTrack)
    → get_elem? tracks q ≡ some t
    → t'.publisher_identity ≡ t.publisher_identity
    → is_published_by publisher (get_elem? (modify (λ x. t') q tracks) p)
      ≡ is_published_by publisher (get_elem? tracks p)
unfolding is_published_by
is_published_by-modify publisher p q t t' tracks found same = elim (Bool-cases (q == p)) [
  | inl e ↦
      let eq : q ≡ p = ground arith in
      let here : get_elem? (modify (λ x. t') q tracks) p ≡ some t' =
        ground (arith, get_elem?-modify_same (λ x. t') q tracks t found) in
      let there : get_elem? tracks p ≡ some t = ground arith in rw (here, there, same) refl
  | inr apart ↦ rw (get_elem?-modify_other (λ x. t') q p tracks apart) refl
]

pub is_published_by-unpublish_track :
    (publisher : List ℕ) (p q : ℕ) (u : Update)
    → is_published_by publisher (get_elem? (unpublish_track q u).manager.tracks p)
      ≡ is_published_by publisher (get_elem? u.manager.tracks p)
unfolding unpublish_track end_track
is_published_by-unpublish_track publisher p q u =
    elim (Option-cases (get_elem? u.manager.tracks q)) [
      | inl e ↦ rw (e, unpublish_track) refl
      | inr (t, e) ↦
          let ended = (end_track unpublished_track t u.manager.outside).0.0 in
          let kept = is_published_by-modify publisher p q t ended u.manager.tracks e refl in
          rw (e, unpublish_track) kept
    ]

pub unpublish_track-kept :
    (publisher : List ℕ) (p q : ℕ) (u : Update)
    → is_published_by publisher (get_elem? u.manager.tracks q) ≡ true
    → is_published_by publisher (get_elem? u.manager.tracks p) ≡ false
    → get_elem? (unpublish_track q u).manager.tracks p ≡ get_elem? u.manager.tracks p
unfolding unpublish_track end_track
unpublish_track-kept publisher p q u own other =
    let apart : (q == p) ≡ false = elim (Bool-cases (q == p)) [
      | inr e ↦ e
      | inl e ↦ let eq : q ≡ p = ground arith in absurd (ground arith)
    ] in
    elim (Option-cases (get_elem? u.manager.tracks q)) [
      | inl e ↦ rw (e, unpublish_track) refl
      | inr (t, e) ↦
          let ended = (end_track unpublished_track t u.manager.outside).0.0 in
          let same = get_elem?-modify_other (λ x. ended) q p u.manager.tracks apart in
          rw (e, unpublish_track) same
    ]

pub unpublish_track-IsEnded :
    (q : ℕ) (u : Update) (publisher : List ℕ)
    → is_published_by publisher (get_elem? u.manager.tracks q) ≡ true
    → IsEnded (unpublish_track q u).manager.tracks q
unfolding unpublish_track end_track is_published_by
unpublish_track-IsEnded q u publisher own = elim (Option-cases (get_elem? u.manager.tracks q)) [
  | inl e ↦ absurd (ground arith)
  | inr (t, e) ↦
      let ended = (end_track unpublished_track t u.manager.outside).0.0 in
      let there = get_elem?-modify_same (λ x. ended) q u.manager.tracks t e in
      rw (e, unpublish_track) (ended, there, refl, refl, refl, refl)
]

pub IsEnded-unpublish_track :
    (p q : ℕ) (u : Update)
    → IsEnded u.manager.tracks p
    → IsEnded (unpublish_track q u).manager.tracks p
unfolding unpublish_track end_track
IsEnded-unpublish_track p q u (t0, there0, broken, state, waiting, reading) =
    elim (Option-cases (get_elem? u.manager.tracks q)) [
      | inl e ↦ rw (e, unpublish_track) (t0, there0, broken, state, waiting, reading)
      | inr (t, e) ↦
          let ended = (end_track unpublished_track t u.manager.outside).0.0 in
          elim (Bool-cases (q == p)) [
            | inl here ↦
                let eq : q ≡ p = ground arith in
                let there : get_elem? (modify (λ x. ended) q u.manager.tracks) p ≡ some ended =
                  ground (arith, get_elem?-modify_same (λ x. ended) q u.manager.tracks t e) in
                rw (e, unpublish_track) (ended, there, refl, refl, refl, refl)
            | inr apart ↦
                let same = get_elem?-modify_other (λ x. ended) q p u.manager.tracks apart in
                rw (e, unpublish_track) (t0, same ∙ there0, broken, state, waiting, reading)
          ]
    ]
