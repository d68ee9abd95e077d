-- ===== src/Datatrack/Remote/Sound.antt =====
-- The states of a `RemoteTrack` of internal/datatrack/remote.go, over all calls of its methods.
use server_sdk_go.Prelude.{
  ℕ, ◌+◌, ◌≤◌, ◌≡◌, inl, inr, refl, Bool, true, false, not, ◌&&◌, List, [], ◌∷◌, ◌++◌, none, ltb,
  ◌==◌, length, contains, erase_first, length-append, Bool-cases, arith, append-nil, append_assoc,
  ◌∙◌, ap,
}
use server_sdk_go.Datatrack.Proto.{Info}
use server_sdk_go.Datatrack.Remote.Track.{
  SubscriptionState, unsubscribed, pending, active, SubscribeError, RemoteTrack, Outside,
  new_remote_track, set_pipeline_options, add_stream, subscribe_in, subscribe, refused, stream,
  unpublished_track, encryption_disabled, clamp_buffer, fail_request, withdraw_in, withdraw,
  answer_streams, activate_in, activate, is_active, end_track, leave, remove_stream,
}

-- Without a subscription nobody waits and there is no stream; a pending one has a caller that waits,
-- an active one a worker and a stream and no caller that waits; and a track that ended has none.
abbrev pub IsShape : SubscriptionState → RemoteTrack → Type 0
IsShape unsubscribed t = (t.waiters ≡ []) × (t.streams ≡ []) × (t.running ≡ false)
IsShape pending t =
    (1 ≤ length t.waiters) × (t.streams ≡ []) × (t.running ≡ false) × (t.broken ≡ false)
IsShape active t =
    (t.waiters ≡ []) × (1 ≤ length t.streams) × (t.running ≡ true) × (t.broken ≡ false)

abbrev pub IsSound : RemoteTrack → Type 0
IsSound t = IsShape t.subscription t

-- The calls that change a track, with what they are given.
pub data TrackCall : Type 0 where
  subscribes : Bool → ℕ → ℕ → TrackCall
  send_fails : TrackCall
  gives_up activates closes : ℕ → TrackCall
  ends : SubscribeError → TrackCall
  configures : ℕ → TrackCall

unfoldable pub call : TrackCall → RemoteTrack × Outside → RemoteTrack × Outside
call (subscribes can_decrypt size channel) (t, w) = (subscribe can_decrypt size channel t w).0
call send_fails (t, w) = fail_request t.subscription t w
call (gives_up channel) (t, w) = ((withdraw channel t).0, w)
call (activates h) (t, w) = (activate h t w).0
call (closes s) (t, w) = (remove_stream s t w).0
call (ends e) (t, w) = (end_track e t w).0
call (configures max) (t, w) = (set_pipeline_options max t, w)

unfoldable pub calls : List TrackCall → RemoteTrack × Outside → RemoteTrack × Outside
calls [] tw = tw
calls (c ∷ cs) tw = calls cs (call c tw)

subscribe_in-IsSound :
    (s : SubscriptionState) (size channel : ℕ) (t : RemoteTrack) (w : Outside)
    → t.subscription ≡ s
    → t.broken ≡ false
    → IsShape s t
    → IsSound (subscribe_in s size channel t w).0.0
unfolding subscribe_in add_stream
subscribe_in-IsSound unsubscribed size channel t w e fine h =
    (omega (arith, length-append t.waiters (channel ∷ [])), h.1, h.2, fine)
subscribe_in-IsSound pending size channel t w e fine h =
    rw e (omega (arith, length-append t.waiters (channel ∷ [])), h.1, h.2, fine)
subscribe_in-IsSound active size channel t w e fine h =
    rw e (h.0, omega (arith, length-append t.streams (w.next_stream ∷ [])), h.2, h.3)

subscribe-IsSound :
    (can_decrypt : Bool) (size channel : ℕ) (t : RemoteTrack) (w : Outside)
    → IsSound t
    → IsSound (subscribe can_decrypt size channel t w).0.0
unfolding subscribe
subscribe-IsSound can_decrypt size channel t w h = elim (Bool-cases t.broken) [
  | inl e ↦
      let same : subscribe can_decrypt size channel t w ≡ ((t, w), refused unpublished_track) =
        ground arith in
      rw same h
  | inr e ↦ elim (Bool-cases (t.info.uses_e2ee && not can_decrypt)) [
    | inl e' ↦
        let same : subscribe can_decrypt size channel t w ≡ ((t, w), refused encryption_disabled) =
          ground arith in
        rw same h
    | inr e' ↦
        let same : subscribe can_decrypt size channel t w
            ≡ subscribe_in t.subscription (clamp_buffer size) channel t w =
          ground arith in
        rw same (subscribe_in-IsSound t.subscription (clamp_buffer size) channel t w refl e h)
  ]
]

fail_request-IsSound :
    (s : SubscriptionState) (t : RemoteTrack) (w : Outside)
    → t.subscription ≡ s
    → IsShape s t
    → IsSound (fail_request s t w).0
unfolding fail_request
fail_request-IsSound unsubscribed t w e h = rw e h
fail_request-IsSound pending t w e h = (refl, h.1, h.2)
fail_request-IsSound active t w e h = rw e h

withdraw_in-IsSound :
    (s : SubscriptionState) (channel : ℕ) (t : RemoteTrack) (left : List ℕ)
    → t.subscription ≡ s
    → IsShape s t
    → left ≡ erase_first channel t.waiters
    → IsSound (withdraw_in s left t).0
unfolding withdraw_in erase_first
withdraw_in-IsSound unsubscribed channel t left e h same =
    let empty : left ≡ [] = rw (same, h.0) refl in rw e (empty, h.1, h.2)
withdraw_in-IsSound pending channel t [] e h same = (refl, h.1, h.2)
withdraw_in-IsSound pending channel t (c ∷ cs) e h same = rw e (omega arith, h.1, h.2, h.3)
withdraw_in-IsSound active channel t left e h same =
    let empty : left ≡ [] = rw (same, h.0) refl in rw e (empty, h.1, h.2, h.3)

-- The loop of `activate` gives each waiter a stream and changes nothing else of the track.
pub answer_streams_lem :
    (size : ℕ) (waiters : List ℕ) (t : RemoteTrack) (w : Outside)
    → (more : List ℕ) × ((answer_streams size waiters (t, w)).0
        ≡ record t { streams = t.streams ++ more })
      × (length more ≡ length waiters)
unfolding answer_streams add_stream
answer_streams_lem size [] t w = ([], rw append-nil refl, refl)
answer_streams_lem size (channel ∷ rest) t w =
    let given = w.next_stream in
    let t1 = record t { streams = t.streams ++ (given ∷ []) } in
    let (more, same, count) = answer_streams_lem size rest t1 (record w {
      next_stream = given + 1;
      made = w.made ++ ((given, size) ∷ []);
      answers = w.answers ++ ((channel, stream given) ∷ []);
    }) in
    (
      given ∷ more,
      same ∙ ap (λ s. record t { streams = s }) (append_assoc t.streams (given ∷ []) more),
      omega (arith, count),
    )

activate_in-IsSound :
    (s : SubscriptionState) (h : ℕ) (t : RemoteTrack) (w : Outside)
    → t.subscription ≡ s
    → IsShape s t
    → IsSound (activate_in s h t w).0.0
unfolding activate_in
activate_in-IsSound unsubscribed h t w e sound = rw e sound
activate_in-IsSound active h t w e sound = rw e sound
activate_in-IsSound pending h t w e sound =
    let started = record t { running = true; sub_handle = h; subscription = active } in
    let (more, same, count) = answer_streams_lem t.buffer_size t.waiters started w in
    rw same (refl, omega (arith, length-append t.streams more, count, sound.0), refl, sound.3)

length-zero {ℓ} : {A : Type ℓ} (xs : List A) → length xs ≡ 0 → xs ≡ []
length-zero [] h = refl
length-zero (x ∷ xs) h = absurd (omega arith)

leave_last :
    (k : ℕ) (t : RemoteTrack)
    → contains t.streams k ≡ true
    → (length (erase_first k t.streams) == 0) ≡ true
    → t.subscription ≡ active
    → (leave k t).0
      ≡ record t { streams = erase_first k t.streams; subscription = unsubscribed; running = false }
unfolding leave is_active
leave_last k t present last e = ground arith

leave_more :
    (k : ℕ) (t : RemoteTrack)
    → contains t.streams k ≡ true
    → (length (erase_first k t.streams) == 0) ≡ false
    → (leave k t).0 ≡ record t { streams = erase_first k t.streams }
unfolding leave
leave_more k t present more = ground arith

leave_in-IsSound :
    (s : SubscriptionState) (stream_number : ℕ) (t : RemoteTrack)
    → t.subscription ≡ s
    → IsShape s t
    → IsSound (leave stream_number t).0
unfolding leave is_active contains erase_first
leave_in-IsSound unsubscribed k t e h =
    let same : leave k t ≡ (t, none) = ground arith in rw (same, e) h
leave_in-IsSound pending k t e h = let same : leave k t ≡ (t, none) = ground arith in rw (same, e) h
leave_in-IsSound active k t e h = elim (Bool-cases (contains t.streams k)) [
  | inr absent ↦ let same : leave k t ≡ (t, none) = ground arith in rw (same, e) h
  | inl present ↦ elim (Bool-cases (length (erase_first k t.streams) == 0)) [
    | inl last ↦
        let same : (leave k t).0 ≡ record t {
          streams = erase_first k t.streams;
          subscription = unsubscribed;
          running = false;
        } =
          leave_last k t present last e in
        rw same (h.0, length-zero (erase_first k t.streams) (ground arith), refl)
    | inr more ↦
        let same : (leave k t).0 ≡ record t { streams = erase_first k t.streams } =
          leave_more k t present more in
        rw (same, e) (h.0, ground arith, h.2, h.3)
  ]
]

kept-IsSound :
    (max : ℕ) (s : SubscriptionState) (t : RemoteTrack)
    → t.subscription ≡ s
    → IsShape s t
    → IsSound (record t { max_partial_frames = max })
kept-IsSound max unsubscribed t e h = rw e h
kept-IsSound max pending t e h = rw e h
kept-IsSound max active t e h = rw e h

configured-IsSound : (max : ℕ) (t : RemoteTrack) → IsSound t → IsSound (set_pipeline_options max t)
unfolding set_pipeline_options
configured-IsSound max t h = elim (Bool-cases (ltb max 1)) [
  | inl e ↦
      let same : set_pipeline_options max t ≡ record t { max_partial_frames = 1 } = ground arith in
      rw same (kept-IsSound 1 t.subscription t refl h)
  | inr e ↦
      let same : set_pipeline_options max t ≡ record t { max_partial_frames = max } =
        ground arith in
      rw same (kept-IsSound max t.subscription t refl h)
]

call-IsSound : (c : TrackCall) (tw : RemoteTrack × Outside) → IsSound tw.0 → IsSound (call c tw).0
unfolding call withdraw activate remove_stream end_track
call-IsSound (subscribes can_decrypt size channel) (t, w) h =
    subscribe-IsSound can_decrypt size channel t w h
call-IsSound send_fails (t, w) h = fail_request-IsSound t.subscription t w refl h
call-IsSound (gives_up channel) (t, w) h =
    withdraw_in-IsSound t.subscription channel t (erase_first channel t.waiters) refl h refl
call-IsSound (activates k) (t, w) h = activate_in-IsSound t.subscription k t w refl h
call-IsSound (closes s) (t, w) h = leave_in-IsSound t.subscription s t refl h
call-IsSound (ends e) (t, w) h = (refl, refl, refl)
call-IsSound (configures max) (t, w) h = configured-IsSound max t h

all_calls-IsSound :
    (cs : List TrackCall) (tw : RemoteTrack × Outside) → IsSound tw.0 → IsSound (calls cs tw).0
unfolding calls
all_calls-IsSound [] tw h = h
all_calls-IsSound (c ∷ cs) tw h = all_calls-IsSound cs (call c tw) (call-IsSound c tw h)

-- Whatever is called on a new track, in whatever order: without a subscription nobody waits and
-- there is no stream and no worker; a pending subscription has a caller that waits for it; an active
-- one has a worker, a stream at least, and no caller left waiting; and neither is one of a track that
-- ended.
pub calls-IsSound :
    (info : Info) (publisher_identity : List ℕ) (w : Outside) (cs : List TrackCall)
    → IsSound (calls cs (new_remote_track info publisher_identity, w)).0
unfolding new_remote_track
calls-IsSound info publisher_identity w cs =
    all_calls-IsSound cs (new_remote_track info publisher_identity, w) (refl, refl, refl)
