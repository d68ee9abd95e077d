-- ===== src/Datatrack/Remote/Participants.antt =====
-- The messages on participants that internal/datatrack/remote.go and proto.go take lists of data tracks
-- from. The order in which Go visits a map is that of the list that is given.
use server_sdk_go.Prelude.{
  ℕ, Bool, true, false, List, [], ◌∷◌, Option, none, some, if◌then◌else◌, bytes_equal, get_elem?,
}
use server_sdk_go.Datatrack.Schema.{SchemaId, FrameEncoding}
use server_sdk_go.Datatrack.Proto.{Info, InfoMessage, info_from_proto, accepted, refused}
use server_sdk_go.Datatrack.Remote.Track.{RemoteTrack, SubscriptionUpdate, resend_subscription}
use server_sdk_go.Datatrack.Remote.Routes.{RemoteManager}
use server_sdk_go.Datatrack.Remote.Publications.{Update, handle_publication_updates}

-- `livekit.ParticipantInfo`, with what is read of it.
pub record ParticipantInfo : Type 0 where
  pub identity : List ℕ
  pub is_disconnected : Bool
  pub data_tracks : List InfoMessage

unfoldable pub put_publisher :
    List ℕ → List Info → List (List ℕ × List Info) → List (List ℕ × List Info)
put_publisher publisher infos [] = (publisher, infos) ∷ []
put_publisher publisher infos ((key, old) ∷ rest) =
    if bytes_equal key publisher
    then (publisher, infos) ∷ rest
    else (key, old) ∷ put_publisher publisher infos rest

unfoldable pub has_publisher : List ℕ → List (List ℕ × List Info) → Bool
has_publisher publisher [] = false
has_publisher publisher ((key, infos) ∷ rest) =
    if bytes_equal key publisher then true else has_publisher publisher rest

-- The infos of a participant's tracks, less those that cannot be read.
unfoldable pub readable_infos : List ℕ → List InfoMessage → List Info
readable_infos prefix [] = []
readable_infos prefix (msg ∷ rest) = elim (info_from_proto prefix msg) [
  | refused e ↦ readable_infos prefix rest
  | accepted info ↦ info ∷ readable_infos prefix rest
]

unfoldable pub infos_of : List ℕ → ParticipantInfo → List Info
infos_of prefix p = if p.is_disconnected then [] else readable_infos prefix p.data_tracks

unfoldable pub collect_updates :
    List ℕ → List ℕ → List ParticipantInfo → List (List ℕ × List Info) → List (List ℕ × List Info)
collect_updates prefix local_identity [] updates = updates
collect_updates prefix local_identity (p ∷ rest) updates =
    collect_updates prefix local_identity rest (
      if bytes_equal p.identity local_identity
      then updates
      else put_publisher p.identity (infos_of prefix p) updates)

unfoldable pub publication_updates_from_proto :
    List ℕ → List ℕ → List ParticipantInfo → List (List ℕ × List Info)
publication_updates_from_proto prefix local_identity participants =
    collect_updates prefix local_identity participants []

-- The loop of `HandleParticipantSnapshot`: publishers that the snapshot lacks are given no track.
unfoldable pub add_absent :
    List RemoteTrack → List (List ℕ × ℕ) → List (List ℕ × List Info) → List (List ℕ × List Info)
add_absent tracks [] updates = updates
add_absent tracks ((sid, p) ∷ rest) updates = elim (get_elem? tracks p) [
  | none ↦ add_absent tracks rest updates
  | some t ↦ add_absent tracks rest (
      if has_publisher t.publisher_identity updates
      then updates
      else put_publisher t.publisher_identity [] updates)
]

module _ (same_schema : Option SchemaId → Option SchemaId → Bool)
    (same_encoding : Option FrameEncoding → Option FrameEncoding → Bool)
    (prefix local_identity : List ℕ) where
  unfoldable pub handle_participant_update : List ParticipantInfo → RemoteManager → Update
  handle_participant_update participants m =
      handle_publication_updates same_schema same_encoding
        (publication_updates_from_proto prefix local_identity participants) m

  unfoldable pub handle_participant_snapshot : List ParticipantInfo → RemoteManager → Update
  handle_participant_snapshot participants m =
      handle_publication_updates same_schema same_encoding
        (add_absent m.tracks m.descriptors
          (publication_updates_from_proto prefix local_identity participants))
        m

-- `ResendSubscriptionUpdates`, by what it sends for each track that it knows.
unfoldable pub resend_subscription_updates :
    List RemoteTrack → List (List ℕ × ℕ) → List (Option SubscriptionUpdate)
resend_subscription_updates tracks [] = []
resend_subscription_updates tracks ((sid, p) ∷ rest) = elim (get_elem? tracks p) [
  | none ↦ resend_subscription_updates tracks rest
  | some t ↦ resend_subscription t ∷ resend_subscription_updates tracks rest
]
