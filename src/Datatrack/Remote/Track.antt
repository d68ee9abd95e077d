-- ===== src/Datatrack/Remote/Track.antt =====
-- `RemoteTrack` of internal/datatrack/remote.go: one track and its subscription. A method is the
-- part under the track's lock. Waiters and streams are known by numbers, as pointers are.
use server_sdk_go.Prelude.{
  ℕ, ◌+◌, Bool, true, false, not, ◌&&◌, List, [], ◌∷◌, ◌++◌, Option, none, some, ltb, ◌==◌,
  if◌then◌else◌, length, contains, erase_first,
}
use server_sdk_go.Datatrack.Proto.{Info}

pub data SubscriptionState : Type 0 where
  unsubscribed pending active : SubscriptionState

pub data SubscribeError : Type 0 where
  unpublished_track encryption_disabled update_failed room_disconnected : SubscribeError

pub data SubscribeResult : Type 0 where
  stream : ℕ → SubscribeResult
  no_stream : SubscribeError → SubscribeResult

pub record SubscriptionUpdate : Type 0 where
  pub sid : List ℕ
  pub subscribe : Bool

-- `broken` is the fuse `unpublished`; `running` tells whether `packets` feeds a worker.
pub record RemoteTrack : Type 0 where
  pub publisher_identity : List ℕ
  pub pub_handle : ℕ
  pub broken : Bool
  pub max_partial_frames : ℕ
  pub info : Info
  pub subscription : SubscriptionState
  pub waiters : List ℕ
  pub buffer_size : ℕ
  pub sub_handle : ℕ
  pub running : Bool
  pub streams : List ℕ

-- What a track does to the streams and the waiters' channels: the number of the next stream, the
-- buffer size of each stream that was made, the streams that were closed, and the answers given.
pub record Outside : Type 0 where
  pub next_stream : ℕ
  pub made : List (ℕ × ℕ)
  pub closed : List ℕ
  pub answers : List (ℕ × SubscribeResult)

unfoldable pub new_remote_track : Info → List ℕ → RemoteTrack
new_remote_track info publisher_identity = record {
  publisher_identity = publisher_identity;
  pub_handle = info.pub_handle;
  broken = false;
  max_partial_frames = 1;
  info = info;
  subscription = unsubscribed;
  waiters = [];
  buffer_size = 0;
  sub_handle = 0;
  running = false;
  streams = [];
}

unfoldable pub set_pipeline_options : ℕ → RemoteTrack → RemoteTrack
set_pipeline_options max t =
    if ltb max 1 then record t { max_partial_frames = 1 } else record t { max_partial_frames = max }

unfoldable pub add_stream : ℕ → RemoteTrack × Outside → RemoteTrack × Outside
add_stream size (t, w) = (
  record t { streams = t.streams ++ (w.next_stream ∷ []) },
  record w { next_stream = w.next_stream + 1; made = w.made ++ ((w.next_stream, size) ∷ []) },
)

-- What `Subscribe` goes on with behind its part under the lock.
pub data Subscribing : Type 0 where
  refused : SubscribeError → Subscribing
  joined : ℕ → Subscribing
  waits : Option SubscriptionUpdate → Subscribing

unfoldable pub clamp_buffer : ℕ → ℕ
clamp_buffer size = if ltb size 1 then 1 else size

unfoldable pub subscribe_in :
    SubscriptionState → ℕ → ℕ → RemoteTrack → Outside → (RemoteTrack × Outside) × Subscribing
subscribe_in active size channel t w = (add_stream size (t, w), joined w.next_stream)
subscribe_in pending size channel t w =
    ((record t { waiters = t.waiters ++ (channel ∷ []) }, w), waits none)
subscribe_in unsubscribed size channel t w = (
  (
    record t { waiters = t.waiters ++ (channel ∷ []); subscription = pending; buffer_size = size },
    w,
  ),
  waits (some (record { sid = t.info.sid; subscribe = true })),
)

-- `can_decrypt` tells whether the manager has a decryptor.
unfoldable pub subscribe :
    Bool → ℕ → ℕ → RemoteTrack → Outside → (RemoteTrack × Outside) × Subscribing
subscribe can_decrypt size channel t w =
    if t.broken
    then ((t, w), refused unpublished_track)
    else if t.info.uses_e2ee && not can_decrypt
    then ((t, w), refused encryption_disabled)
    else subscribe_in t.subscription (clamp_buffer size) channel t w

unfoldable pub answer_all :
    SubscribeError → List ℕ → List (ℕ × SubscribeResult) → List (ℕ × SubscribeResult)
answer_all e [] answers = answers
answer_all e (channel ∷ rest) answers = answer_all e rest (answers ++ ((channel, no_stream e) ∷ []))

-- Where the update of a `Subscribe` could not be sent.
unfoldable pub fail_request : SubscriptionState → RemoteTrack → Outside → RemoteTrack × Outside
fail_request pending t w = (
  record t { subscription = unsubscribed; waiters = [] },
  record w { answers = answer_all update_failed t.waiters w.answers },
)
fail_request active t w = (t, w)
fail_request unsubscribed t w = (t, w)

-- Where the context of a `Subscribe` ends.
unfoldable pub withdraw_in :
    SubscriptionState → List ℕ → RemoteTrack → RemoteTrack × Option SubscriptionUpdate
withdraw_in pending [] t = (
  record t { waiters = []; subscription = unsubscribed },
  some (record { sid = t.info.sid; subscribe = false }),
)
withdraw_in pending (c ∷ cs) t = (record t { waiters = c ∷ cs }, none)
withdraw_in active waiters t = (record t { waiters = waiters }, none)
withdraw_in unsubscribed waiters t = (record t { waiters = waiters }, none)

unfoldable pub withdraw : ℕ → RemoteTrack → RemoteTrack × Option SubscriptionUpdate
withdraw channel t = withdraw_in t.subscription (erase_first channel t.waiters) t

-- `resendSubscription`
unfoldable pub resend_in : SubscriptionState → List ℕ → Option SubscriptionUpdate
resend_in unsubscribed sid = none
resend_in pending sid = some (record { sid = sid; subscribe = true })
resend_in active sid = some (record { sid = sid; subscribe = true })

unfoldable pub resend_subscription : RemoteTrack → Option SubscriptionUpdate
resend_subscription t = resend_in t.subscription t.info.sid

-- The loop of `activate` over the waiters.
unfoldable pub answer_streams : ℕ → List ℕ → RemoteTrack × Outside → RemoteTrack × Outside
answer_streams size [] tw = tw
answer_streams size (channel ∷ rest) tw =
    let given = tw.1.next_stream in
    let (t, w) = add_stream size tw in
    answer_streams size rest (t, record w { answers = w.answers ++ ((channel, stream given) ∷ []) })

pub data Activation : Type 0 where
  no_subscription first_handle : Activation
  replaced : ℕ → Activation

unfoldable pub activate_in :
    SubscriptionState → ℕ → RemoteTrack → Outside → (RemoteTrack × Outside) × Activation
activate_in unsubscribed h t w = ((t, w), no_subscription)
activate_in active h t w = ((record t { sub_handle = h }, w), replaced t.sub_handle)
activate_in pending h t w =
    let started = record t { running = true; sub_handle = h; subscription = active } in
    let (t', w') = answer_streams t.buffer_size t.waiters (started, w) in
    ((record t' { waiters = [] }, w'), first_handle)

unfoldable pub activate : ℕ → RemoteTrack → Outside → (RemoteTrack × Outside) × Activation
activate h t w = activate_in t.subscription h t w

unfoldable pub is_active : SubscriptionState → Bool
is_active active = true
is_active pending = false
is_active unsubscribed = false

unfoldable pub uses_handle : ℕ → RemoteTrack → Bool
uses_handle h t = is_active t.subscription && (t.sub_handle == h)

-- `end`, with the handle of the subscription that it ended.
unfoldable pub end_track :
    SubscribeError → RemoteTrack → Outside → (RemoteTrack × Outside) × Option ℕ
end_track e t w = (
  (
    record t {
      broken = true;
      waiters = [];
      streams = [];
      subscription = unsubscribed;
      running = false;
    },
    record w { answers = answer_all e t.waiters w.answers; closed = w.closed ++ t.streams },
  ),
  if is_active t.subscription then some t.sub_handle else none,
)

-- `removeStream`, with the handle to release and the update to send.
unfoldable pub leave : ℕ → RemoteTrack → RemoteTrack × Option (ℕ × SubscriptionUpdate)
leave s t =
    let left = erase_first s t.streams in
    if not (contains t.streams s)
    then (t, none)
    else if (length left == 0) && is_active t.subscription
    then (
      record t { streams = left; subscription = unsubscribed; running = false },
      some (t.sub_handle, record { sid = t.info.sid; subscribe = false }),
    )
    else (record t { streams = left }, none)

unfoldable pub remove_stream :
    ℕ → RemoteTrack → Outside → (RemoteTrack × Outside) × Option (ℕ × SubscriptionUpdate)
remove_stream s t w =
    let (t', withdrawn) = leave s t in ((t', record w { closed = w.closed ++ (s ∷ []) }), withdrawn)
