-- ===== src/Stream/Acks.antt =====
-- Every frame that can be read is acknowledged, before it is handed on.
use dingtalk_channel_sdk_go.Prelude.{
  if◌then◌else◌, Bool-cases, Text, bytes, ◌==◌, lookup, ◌≡◌, refl, inl, inr, Bool, true, false,
  ◌&&◌, some, List, [], ◌∷◌,
}
use dingtalk_channel_sdk_go.Frame.{Frame, FrameAck, sub_system, topic_of, message_id, success_ack}
use dingtalk_channel_sdk_go.Stream.{Action, writes, hands, closes, handle_frame}

-- a control frame of the gateway, with this topic
abbrev pub is_system : Frame → Text → Bool
is_system f topic = (f.kind == sub_system) && (topic_of f == topic)

-- the acknowledgement of a frame
abbrev pub Acknowledges : Frame → FrameAck → Type 0
Acknowledges f ack =
    (ack.code ≡ 200) × (lookup (bytes "messageId") ack.headers ≡ some (message_id f))

success_ack-Acknowledges :
    (f : Frame) (content : Text) → Acknowledges f (success_ack (message_id f) content)
unfolding success_ack lookup bytes ◌==◌
success_ack-Acknowledges f content = (refl, refl)

-- What follows the acknowledgement of a frame.
abbrev pub Follows : Bool → Frame → FrameAck → List Action → Type 0
Follows has_handler f ack rest =
    (is_system f (bytes "ping") ≡ true → (rest ≡ []) × (ack.content ≡ f.content))
    × (is_system f (bytes "ping") ≡ false
        → is_system f (bytes "disconnect") ≡ true
        → rest ≡ closes ∷ [])
    × (is_system f (bytes "ping") ≡ false
        → is_system f (bytes "disconnect") ≡ false
        → rest ≡ (if has_handler then hands f ∷ [] else []))

-- What is done with a frame: it is acknowledged once, under its own id, and before anything else. A
-- ping gets its data back and nothing more; after a disconnect the connection is closed; any other
-- frame is handed on if there is a handler, and no ping or disconnect is.
pub handle_frame-Acknowledges :
    (has_handler : Bool) (f : Frame)
    → (ack : FrameAck) × (rest : List Action) × (handle_frame has_handler (some f)
        ≡ writes ack ∷ rest)
      × Acknowledges f ack
      × Follows has_handler f ack rest
handle_frame-Acknowledges has_handler f = elim (Bool-cases (is_system f (bytes "ping"))) [
  | inl ping ↦ (
    record (success_ack (message_id f) f.content) { content = f.content },
    [],
    (unfold handle_frame in rw ping refl),
    success_ack-Acknowledges f f.content,
    (λ _. (refl, refl), λ no_ping. absurd (cc), λ no_ping. absurd (cc)),
  )
  | inr other ↦ elim (Bool-cases (is_system f (bytes "disconnect"))) [
    | inl disconnect ↦ (
      success_ack (message_id f) [],
      closes ∷ [],
      (unfold handle_frame in rw (other, disconnect) refl),
      success_ack-Acknowledges f [],
      (λ ping. absurd (cc), λ _ d. refl, λ _ plain. absurd (cc)),
    )
    | inr data_frame ↦ (
      success_ack (message_id f) [],
      if has_handler then hands f ∷ [] else [],
      (unfold handle_frame in rw (other, data_frame) refl),
      success_ack-Acknowledges f [],
      (λ ping. absurd (cc), λ _ d. absurd (cc), λ _ plain. refl),
    )
  ]
]
