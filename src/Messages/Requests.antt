-- ===== src/Messages/Requests.antt =====
-- What a request that passes leads to.
use nexus_services.Shared.{
  ◌≤◌, ◌≡◌, ◌≢◌, refl, ap, subst, sym, ◌∙◌, inl, inr, true, Option, none, some, [], Result, ok, err,
  is_ok, Result-cases, arith,
}
use nexus_services.Shared.Actions.{bind_answer}
use nexus_services.Text.{Text, trim_space, trim_space_idem, text_eq_iff, rune_count}
use nexus_services.Domain.User
use nexus_services.Domain.Chat
use nexus_services.Domain.Timeline
use nexus_services.Domain.Timeline.Contents.{restore_content_decides}
use nexus_services.Domain.Timeline.{Item}
use nexus_services.Domain.Timeline.{
  TimelineError, ContentType, MessageContent, content_type_text, content_type_image, valid,
  parse_content_type, new_image_content, new_message_content, restore_content,
  parse_client_message_id, new_message,
}
use nexus_services.Domain.Timeline.Identities.{parse_client_message_id_normal}
use nexus_services.Messages.Document.{CreateMessageParams}
use nexus_services.Messages.Roundtrip.{IsParsed}
use nexus_services.Messages.Request.{
  CreateError, CreateContentInput, CreateInput, CreateOutput, parse_content, parse_typed,
  max_text_message_characters, validate_stored_item, map_create_output,
}
use nexus_services.Messages.UseCase.{
  CreatePorts, or_else, generated, generate_message_id, creation_time, find_conversation, prepare,
  store, persist, execute,
}

-- What `parseContent` accepts is a valid content with the parts of the input, and a text has at
-- most 4000 characters.
pub record IsAccepted (input : CreateContentInput) (c : MessageContent) : Type 0 where
  pub is_valid : valid c ≡ true
  pub type_parsed : parse_content_type input.content_type ≡ ok c.content_type
  pub same_value : c.value ≡ input.value
  pub same_image_id : c.image_id ≡ input.image_id
  pub same_caption : c.caption ≡ input.caption
  pub short : rune_count c.value ≤ max_text_message_characters

typed-restored :
    (input : CreateContentInput) (t : ContentType) (c : MessageContent)
    → parse_typed t input ≡ ok c
    → (restore_content t input.value input.image_id input.caption ≡ ok c)
      × (rune_count input.value ≤ max_text_message_characters)
unfolding parse_typed restore_content rune_count
typed-restored input t c h =
    ground (arith, text_eq_iff t content_type_text, text_eq_iff t content_type_image)

ok_injective : {E A : Type 0} {x y : A} → ◌≡◌ {A = Result E A} (ok x) (ok y) → x ≡ y
ok_injective {E} {A} {x} h = ap {A = Result E A} (λ r. elim r [ ok a ↦ a | err _ ↦ x ]) h

accepted :
    (input : CreateContentInput) (t : ContentType) (c : MessageContent)
    → parse_content_type input.content_type ≡ ok t
    → restore_content t input.value input.image_id input.caption ≡ ok c
    → rune_count input.value ≤ max_text_message_characters
    → IsAccepted input c
unfolding valid
accepted input t c p h short =
    let decides = restore_content_decides t input.value input.image_id input.caption in
    let kept : MessageContent = record {
      content_type = t;
      value = input.value;
      image_id = input.image_id;
      caption = input.caption;
    } in
    let same : ◌≡◌ {A = Result TimelineError MessageContent} (ok c) (ok kept) =
      sym h ∙ decides.0 (decides.1 c h) in
    subst (IsAccepted input) (sym (ok_injective same)) (record {
      is_valid = ap is_ok h;
      type_parsed = p;
      same_value = refl;
      same_image_id = refl;
      same_caption = refl;
      short = short;
    })

-- A content that `parseContent` accepts is valid, has the parts of the input, and a value of
-- at most 4000 characters.
pub parse_content-IsAccepted :
    (input : CreateContentInput) (c : MessageContent)
    → parse_content input ≡ ok c
    → IsAccepted input c
unfolding parse_content
parse_content-IsAccepted input c h = elim (Result-cases (parse_content_type input.content_type)) [
  | inl (t, e) ↦
      let (restored, short) = typed-restored input t c (ground arith) in
      accepted input t c e restored short
  | inr (x, e) ↦ absurd (ground arith)
]

-- The parts of the request that a request that passes has: they are what its fields parse to, and
-- what the store is called with is parsed.
pub record IsPrepared (input : CreateInput) (params : CreateMessageParams) : Type 0 where
  pub parsed : IsParsed params
  pub user_parsed : User.parse_id input.current_user_id ≡ ok params.message.sender_id
  pub chat_parsed : Chat.parse_id input.chat_id ≡ ok params.chat_id
  pub client_parsed :
      parse_client_message_id input.client_message_id ≡ ok params.message.client_message_id
  pub content_accepted : IsAccepted input.content params.message.content

or_else_ok :
    {E A : Type 0} (e : CreateError) (r : Result E A) {a : A} → or_else e r ≡ ok a → r ≡ ok a
or_else_ok e (ok a) h = ap ok (ok_injective h)
or_else_ok e (err x) h = absurd (cc)

abbrev Trimmed : Text → Type 0
Trimmed id = (id ≢ []) × (trim_space id ≡ id)

user_id-Trimmed : (raw id : Text) → User.parse_id raw ≡ ok id → Trimmed id
unfolding User.parse_id
user_id-Trimmed raw id h = let idem = trim_space_idem raw in (ground arith, ground arith)

chat_id-Trimmed : (raw id : Text) → Chat.parse_id raw ≡ ok id → Trimmed id
unfolding Chat.parse_id
chat_id-Trimmed raw id h = let idem = trim_space_idem raw in (ground arith, ground arith)

item_id-Trimmed : (raw id : Text) → Timeline.parse_id raw ≡ ok id → Trimmed id
unfolding Timeline.parse_id
item_id-Trimmed raw id h = let idem = trim_space_idem raw in (ground arith, ground arith)

module _ {W : Type 0} (ports : CreatePorts W) where
  generate_message_id-Trimmed :
      (w : W) (id : Text) → (generate_message_id ports w).0 ≡ ok id → Trimmed id
  unfolding generate_message_id generated
  generate_message_id-Trimmed w id h = elim (Result-cases (ports.new_id w).0) [
    | inl (raw, e) ↦ item_id-Trimmed raw id (ground arith)
    | inr (x, e) ↦ absurd (ground arith)
  ]

  -- When a request is prepared, the parameters for the store are what its fields parse to, their
  -- ids parse to themselves, their content is valid, and there is a time.
  pub prepare-IsPrepared :
      (input : CreateInput) (w : W) (params : CreateMessageParams)
      → (prepare ports input w).0 ≡ ok params
      → IsPrepared input params
  unfolding prepare new_message creation_time
  prepare-IsPrepared input w params h =
      let message = params.message in
      let user : User.parse_id input.current_user_id ≡ ok message.sender_id = ground arith in
      let chat : Chat.parse_id input.chat_id ≡ ok params.chat_id = ground arith in
      let client : parse_client_message_id input.client_message_id ≡ ok message.client_message_id =
        ground arith in
      let content : parse_content input.content ≡ ok message.content = ground arith in
      let v = (find_conversation ports message.sender_id params.chat_id w).1 in
      let id : (generate_message_id ports v).0 ≡ ok params.message_id = ground arith in
      let accepted = parse_content-IsAccepted input.content message.content content in
      let (id_full, id_trimmed) = generate_message_id-Trimmed v params.message_id id in
      let (chat_full, chat_trimmed) = chat_id-Trimmed input.chat_id params.chat_id chat in
      let (user_full, user_trimmed) =
        user_id-Trimmed input.current_user_id message.sender_id user in
      record {
        parsed = record {
          id_named = id_full;
          id_trimmed = id_trimmed;
          chat_named = chat_full;
          chat_trimmed = chat_trimmed;
          client_named = ground arith;
          client_parsed = (parse_client_message_id_normal input.client_message_id client).2;
          sender_named = user_full;
          sender_trimmed = user_trimmed;
          content_valid = accepted.is_valid;
          created = ground arith;
        };
        user_parsed = user;
        chat_parsed = chat;
        client_parsed = client;
        content_accepted = accepted;
      }

-- The answer to a request tells of the message that was asked for, at a place in its chat.
pub record IsAnswer (input : CreateInput) (out : CreateOutput) : Type 0 where
  pub user_parsed : User.parse_id input.current_user_id ≡ ok out.sender_id
  pub chat_parsed : Chat.parse_id input.chat_id ≡ ok out.chat_id
  pub client_parsed : parse_client_message_id input.client_message_id ≡ ok out.client_message_id
  pub type_parsed : parse_content_type input.content.content_type ≡ ok out.content.content_type
  pub same_value : out.content.value ≡ input.content.value
  pub same_image_id : out.content.image_id ≡ input.content.image_id
  pub same_caption : out.content.caption ≡ input.content.caption
  pub placed : 1 ≤ out.sequence

-- The stored item that passes has the parts of the message that the store was called with.
validated :
    (reply : Option Item) (params : CreateMessageParams) (item : Item)
    → validate_stored_item reply params.chat_id params.message ≡ ok item
    → (item.chat_id ≡ params.chat_id)
      × (item.message.client_message_id ≡ params.message.client_message_id)
      × (item.message.sender_id ≡ params.message.sender_id)
      × (item.message.content.content_type ≡ params.message.content.content_type)
      × (item.message.content.value ≡ params.message.content.value)
      × (item.message.content.image_id ≡ params.message.content.image_id)
      × (item.message.content.caption ≡ params.message.content.caption)
      × (1 ≤ item.sequence)
unfolding validate_stored_item
validated none params item h = absurd (ground arith)
validated (some stored) params item h =
    let same : stored ≡ item = ground arith in
    rw (sym same) (
      ground (arith, text_eq_iff stored.chat_id params.chat_id),
      ground (arith, text_eq_iff stored.message.client_message_id params.message.client_message_id),
      ground (arith, text_eq_iff stored.message.sender_id params.message.sender_id),
      ground (
        arith,
        text_eq_iff stored.message.content.content_type params.message.content.content_type,
      ),
      ground (arith, text_eq_iff stored.message.content.value params.message.content.value),
      ground (arith, text_eq_iff stored.message.content.image_id params.message.content.image_id),
      ground (arith, text_eq_iff stored.message.content.caption params.message.content.caption),
      ground arith,
    )

module _ {W : Type 0} (ports : CreatePorts W) where
  -- The answer to a request that succeeds has the sender, the chat, the client
  -- message id and the content that the request's fields parse to, and a sequence from 1 on,
  -- whatever the ports reply.
  pub execute-IsAnswer :
      (input : CreateInput) (w : W) (out : CreateOutput)
      → (execute ports input w).0 ≡ ok out
      → IsAnswer input out
  unfolding execute persist map_create_output
  execute-IsAnswer input w out h =
      let (params, ready, done) = bind_answer (prepare ports input) (persist ports) w h in
      let prepared = prepare-IsPrepared ports input w params ready in
      let v = (prepare ports input w).1 in
      elim (Result-cases (store ports params v).0) [
        | inr (e, q) ↦ absurd (ground arith)
        | inl (reply, q) ↦
            elim (Result-cases (validate_stored_item reply.item params.chat_id params.message)) [
              | inr (e, k) ↦ absurd (ground arith)
              | inl (item, k) ↦
                  let made : map_create_output item reply.created ≡ out = ground arith in
                  let same = validated reply.item params item k in
                  let content = prepared.content_accepted in
                  rw (sym made) (record {
                    user_parsed = prepared.user_parsed ∙ ap ok (sym same.2);
                    chat_parsed = prepared.chat_parsed ∙ ap ok (sym same.0);
                    client_parsed = prepared.client_parsed ∙ ap ok (sym same.1);
                    type_parsed = content.type_parsed ∙ ap ok (sym same.3);
                    same_value = same.4 ∙ content.same_value;
                    same_image_id = same.5 ∙ content.same_image_id;
                    same_caption = same.6 ∙ content.same_caption;
                    placed = same.7;
                  })
            ]
      ]
