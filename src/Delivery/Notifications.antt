-- ===== src/Delivery/Notifications.antt =====
-- Who is told of a message.
use nexus_services.Shared.{
  ◌≡◌, refl, inl, inr, Bool-cases, Option, some, List, [], ◌∷◌, Result, ok, err, Result-cases,
  arith,
}
use nexus_services.Shared.Actions.{◌>>=◌, lift}
use nexus_services.Domain.User
use nexus_services.Domain.User.{UserId}
use nexus_services.Domain.Chat
use nexus_services.Domain.Chat.{ChatId, Chat, ChatError, related_user_id}
use nexus_services.Ports.{
  PortError, other, invalid_message_created_event, MessageCreatedEvent, RealtimeMessageCreated,
}
use nexus_services.Delivery.Dispatch.{
  DispatchPorts, validate_message_created, find_chat, recipient_of, conversation_found, notify,
  public_event, dispatch_live, dispatch,
}

-- A publication, with its reply.
pub record Notice : Type 0 where
  pub user : UserId
  pub event : RealtimeMessageCreated
  pub reply : Result PortError (Unit {0})

-- The same ports, with every publication written down, the last one first.
abbrev pub noted : {W : Type 0} → DispatchPorts W → DispatchPorts (W × List Notice)
noted P = record {
  done = λ w. P.done w.0;
  find_by_id = λ chat w. let (r, v) = P.find_by_id chat w.0 in (r, (v, w.1));
  publish_message_created = λ user event w.
      let (r, v) = P.publish_message_created user event w.0 in
      (r, (v, record { user = user; event = event; reply = r } ∷ w.1));
}

-- The chat of the event is there, and its participants are the sender and the recipient.
abbrev pub Between :
    {W : Type 0} → DispatchPorts W → MessageCreatedEvent → UserId → UserId → W → Type 0
Between P event recipient sender w =
    (User.parse_id event.payload.sender_id ≡ ok sender)
    × ((chat_id : ChatId) × (chat : Chat) × (Chat.parse_id event.payload.chat_id ≡ ok chat_id)
        × ((P.find_by_id chat_id w).0 ≡ ok (some chat))
        × (related_user_id chat sender ≡ ok recipient))

-- The publications of a dispatch, the last one first, with its answer: none; the recipient's, which
-- failed; or the recipient's, which did not fail, and then the sender's, which decides.
pub data Notified {W : Type 0} (P : DispatchPorts W) (event : MessageCreatedEvent) (w : W)
    : List Notice → Result PortError (Unit {0}) → Type 0 where
  nobody : (e : PortError) → Notified P event w [] (err e)
  recipient_failed :
      (recipient sender : UserId) (e : PortError)
      → Between P event recipient sender w
      → Notified P event w
          (record { user = recipient; event = public_event event; reply = err e } ∷ [])
          (err e)
  both :
      (recipient sender : UserId) (reply : Result PortError (Unit {0}))
      → validate_message_created event ≡ ok tt
      → Between P event recipient sender w
      → Notified P event w
          (record { user = sender; event = public_event event; reply = reply }
            ∷ record { user = recipient; event = public_event event; reply = ok tt }
            ∷ [])
          reply

found_chat :
    (r : Result PortError (Option Chat)) (chat : Chat)
    → conversation_found r ≡ ok chat
    → r ≡ ok (some chat)
unfolding conversation_found
found_chat r chat h = ground arith

found_recipient :
    (r : Result ChatError UserId) (user : UserId) → recipient_of r ≡ ok user → r ≡ ok user
unfolding recipient_of
found_recipient r user h = ground arith

module _ {W : Type 0} (P : DispatchPorts W) (event : MessageCreatedEvent) (w : W) where
  notify-Notified :
      (recipient sender : UserId) (v : W)
      → validate_message_created event ≡ ok tt
      → Between P event recipient sender w
      → let (r, (_, notices)) = notify (noted P) recipient sender (public_event event) (v, []) in
        Notified P event w notices r
  unfolding notify
  notify-Notified recipient sender v valid between =
      go (P.publish_message_created recipient (public_event event) v).0
    where
      go :
          (r : Result PortError (Unit {0}))
          → let x = (P.publish_message_created recipient (public_event event) v).1 in
            let first : Notice = record {
              user = recipient;
              event = public_event event;
              reply = r;
            } in
            let (s, (_, notices)) : Result PortError (Unit {0}) × (W × List Notice) = elim r [
              | ok a ↦ (noted P).publish_message_created sender (public_event event) (x, first ∷ [])
              | err e ↦ (err e, (x, first ∷ []))
            ] in
            Notified P event w notices s
      go (ok tt) = both recipient sender _ valid between
      go (err e) = recipient_failed recipient sender e between

  chat-Notified :
      (chat_id : ChatId) (chat : Chat) (sender : UserId)
      → validate_message_created event ≡ ok tt
      → Chat.parse_id event.payload.chat_id ≡ ok chat_id
      → User.parse_id event.payload.sender_id ≡ ok sender
      → (P.find_by_id chat_id w).0 ≡ ok (some chat)
      → (v : W)
      → let (r, (_, notices)) =
          (do
            recipient ← lift (recipient_of (related_user_id chat sender))
            notify (noted P) recipient sender (public_event event))
            (v, []) in
        Notified P event w notices r
  chat-Notified chat_id chat sender valid chat_parsed sender_parsed found v =
      elim (Result-cases (recipient_of (related_user_id chat sender))) [
        | inr (e, k) ↦ rw k (nobody e)
        | inl (recipient, k) ↦ rw k (
            notify-Notified recipient sender v valid
              (sender_parsed, (chat_id, chat, chat_parsed, found, found_recipient _ recipient k)))
      ]

  found-Notified :
      (chat_id : ChatId) (sender : UserId)
      → validate_message_created event ≡ ok tt
      → Chat.parse_id event.payload.chat_id ≡ ok chat_id
      → User.parse_id event.payload.sender_id ≡ ok sender
      → let (r, (_, notices)) =
          (do
            conversation ← find_chat (noted P) chat_id
            recipient ← lift (recipient_of (related_user_id conversation sender))
            notify (noted P) recipient sender (public_event event))
            (w, []) in
        Notified P event w notices r
  unfolding find_chat
  found-Notified chat_id sender valid chat_parsed sender_parsed =
      go (conversation_found (P.find_by_id chat_id w).0) refl
    where
      go :
          (r : Result PortError Chat)
          → conversation_found (P.find_by_id chat_id w).0 ≡ r
          → let v = (P.find_by_id chat_id w).1 in
            let (s, (_, notices)) : Result PortError (Unit {0}) × (W × List Notice) = elim r [
              | ok chat ↦
                  (lift (recipient_of (related_user_id chat sender)) >>= λ recipient.
                  notify (noted P) recipient sender (public_event event))
                    (v, [])
              | err e ↦ (err e, (v, []))
            ] in
            Notified P event w notices s
      go (ok chat) q =
          chat-Notified chat_id chat sender valid chat_parsed sender_parsed (found_chat _ chat q)
            (P.find_by_id chat_id w).1
      go (err e) q = nobody e

  -- Every dispatch leaves one of the listed publications, whatever the ports reply: both go out
  -- for a valid event alone, with the same content, first to the other participant of the chat and
  -- then to the sender, and the answer is a success exactly when the second one succeeds.
  pub dispatch-Notified :
      let (r, (_, notices)) = dispatch (noted P) event (w, []) in Notified P event w notices r
  unfolding dispatch dispatch_live
  dispatch-Notified = elim (Bool-cases (P.done w)) [
    | inl d ↦ rw d (nobody other)
    | inr d ↦ rw d (elim (Result-cases (validate_message_created event)) [
      | inr (e, v) ↦ rw v (nobody e)
      | inl (u, v) ↦ rw v (elim (Result-cases (Chat.parse_id event.payload.chat_id)) [
        | inr (e, c) ↦ rw c (nobody invalid_message_created_event)
        | inl (chat_id, c) ↦ rw c (elim (Result-cases (User.parse_id event.payload.sender_id)) [
          | inr (e, s) ↦ rw s (nobody invalid_message_created_event)
          | inl (sender, s) ↦ rw s (found-Notified chat_id sender v c s)
        ])
      ])
    ])
  ]
