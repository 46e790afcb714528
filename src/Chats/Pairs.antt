-- ===== src/Chats/Pairs.antt =====
-- Two users have one chat: what `GetOrCreateDirect` finds and makes.
use mathlib.Core.List.{Memᴰ}
use nexus_services.Shared.{
  ◌≡◌, refl, sym, ap, ◌∙◌, subst, ◌⊎◌, ◌↔◌, inl, Bool, true, false, Option, none, some, List,
  Result, ok, err, ok_inj, map_err, ◌>>=◌, All, arith,
}
use nexus_services.Text.{text_eq_iff}
use nexus_services.Mongo.{
  DbError, duplicate_key, failure, Collection, Upserts, Upserted, Added, Found, Distinct,
  Distinct-same, All-member,
}
use nexus_services.Domain.Chat.{Chat}
use nexus_services.Domain.Chat.Laws.{IsValid}
use nexus_services.Chats.Document.{DocumentError, ChatDocument, new_chat_document, to_domain}
use nexus_services.Chats.Roundtrip.{IsParsed, to_domain-new_chat_document}
use nexus_services.Chats.Repository.{
  ChatStoreError, invalid_document, of_participants, same_chat, stored_chat, convert_stored_chat,
  recovered, answered, get_or_create_direct,
}

-- The filter of a chat's participants.
abbrev pub pair_of : Chat → ChatDocument → Bool
pair_of chat = of_participants chat.participant_one_id chat.participant_two_id

pub pair_of_iff :
    (chat : Chat) (d : ChatDocument)
    → (pair_of chat d ≡ true) ↔ (
        (d.participant_one_id ≡ chat.participant_one_id)
        × (d.participant_two_id ≡ chat.participant_two_id))
unfolding of_participants
pair_of_iff chat d =
    let one = text_eq_iff d.participant_one_id chat.participant_one_id in
    let two = text_eq_iff d.participant_two_id chat.participant_two_id in
    (λ h. (one.0 (ground arith), two.0 (ground arith)), λ h. rw (one.1 h.0, two.1 h.1) refl)

pair_of-same_chat :
    (chat : Chat) (x y : ChatDocument)
    → pair_of chat x ≡ true
    → pair_of chat y ≡ true
    → same_chat x y ≡ true
unfolding same_chat of_participants
pair_of-same_chat chat x y p q =
    let (one, two) = (pair_of_iff chat x).0 p in
    let (one', two') = (pair_of_iff chat y).0 q in
    let first = (text_eq_iff x.participant_one_id y.participant_one_id).1 (one ∙ sym one') in
    let second = (text_eq_iff x.participant_two_id y.participant_two_id).1 (two ∙ sym two') in
    ground arith

-- The chat is read from a document of the pair.
abbrev pub IsKept : Chat → Chat → List ChatDocument → Type 0
IsKept candidate c docs =
    (d : ChatDocument) × Memᴰ d docs × (pair_of candidate d ≡ true) × (to_domain d ≡ ok c)

abbrev pub IsAdded : Chat → List ChatDocument → List ChatDocument → Type 0
IsAdded candidate = Added same_chat (pair_of candidate) (new_chat_document candidate)

abbrev pub IsDirect :
    Chat → List ChatDocument → Result ChatStoreError (Chat × Bool) → List ChatDocument → Type 0
IsDirect candidate before (ok (c, true)) docs = (c ≡ candidate) × IsAdded candidate before docs
IsDirect candidate before (ok (c, false)) docs = (docs ≡ before) × IsKept candidate c before
IsDirect candidate before (err e) docs = (docs ≡ before) ⊎ IsAdded candidate before docs

convert_stored_chat-IsDirect :
    (candidate : Chat) (d : ChatDocument) (before docs : List ChatDocument)
    → Memᴰ d before
    → pair_of candidate d ≡ true
    → docs ≡ before
    → IsDirect candidate before (convert_stored_chat d) docs
unfolding convert_stored_chat stored_chat
convert_stored_chat-IsDirect candidate d before docs m p same = go (to_domain d) refl
  where
    go :
        (r : Result DocumentError Chat)
        → to_domain d ≡ r
        → IsDirect candidate before
            (do conversation ← map_err (λ _. invalid_document) r; ok (conversation, false))
            docs
    go (ok c) e = (same, (d, m, p, e))
    go (err x) e = inl same

recovered-IsDirect :
    (candidate : Chat) (r : Result DbError (Option ChatDocument)) (before docs : List ChatDocument)
    → Found (pair_of candidate) before r
    → docs ≡ before
    → IsDirect candidate before (recovered r) docs
unfolding recovered
recovered-IsDirect candidate (ok none) before docs h same = inl same
recovered-IsDirect candidate (ok (some d)) before docs h same =
    convert_stored_chat-IsDirect candidate d before docs h.0 h.1 same
recovered-IsDirect candidate (err e) before docs h same = inl same

module _ (collection : Collection ChatDocument same_chat) (upserts : Upserts collection) where
  open collection use {State, docs, find_one, find_one_law}
  open upserts use {find_or_insert, find_or_insert_law}

  abbrev Answers : Chat → List ChatDocument → Result ChatStoreError (Chat × Bool) × State → Type 0
  Answers candidate before (r, t) = IsDirect candidate before r (docs t)

  answered-IsDirect :
      (by_participants : Bool) (candidate : Chat) (r : Result DbError (Option ChatDocument))
      (s : State) (before : List ChatDocument)
      → Upserted same_chat (pair_of candidate) (new_chat_document candidate) before r (docs s)
      → Answers candidate before (answered collection upserts by_participants candidate r s)
  unfolding answered
  answered-IsDirect by candidate (ok (some d)) s before h =
      convert_stored_chat-IsDirect candidate d before (docs s) h.0 h.1 h.2
  answered-IsDirect by candidate (ok none) s before h = (refl, h)
  answered-IsDirect by candidate (err failure) s before h = h
  answered-IsDirect false candidate (err duplicate_key) s before h = inl h
  answered-IsDirect true candidate (err duplicate_key) s before h =
      let (found, same) = find_one_law (pair_of candidate) s in
      recovered-IsDirect candidate (find_one (pair_of candidate) s).0 before _
        (subst (λ xs. Found (pair_of candidate) xs (find_one (pair_of candidate) s).0) h found)
        (same ∙ h)

  -- A call that reports a new chat returns the candidate, has added its document and nothing else,
  -- and the pair had no chat and no stored chat its id; one that reports an old chat has changed
  -- nothing and returns a chat that is stored for the pair; and one that fails has at most added the
  -- candidate, for a pair that had no chat.
  pub get_or_create_direct-IsDirect :
      (by_participants : Bool) (candidate : Chat) (s : State)
      → let (r, t) = get_or_create_direct collection upserts by_participants candidate s in
        IsDirect candidate (docs s) r (docs t)
  unfolding get_or_create_direct
  get_or_create_direct-IsDirect by candidate s =
      answered-IsDirect by candidate _ _ (docs s)
        (find_or_insert_law (pair_of candidate) (new_chat_document candidate) s)

  -- A chat that is returned is stored for the pair afterwards.
  pub returned-IsKept :
      (by_participants : Bool) (candidate : Chat) (s : State) (c : Chat) (created : Bool)
      → IsValid candidate
      → IsParsed candidate
      → (get_or_create_direct collection upserts by_participants candidate s).0 ≡ ok (c, created)
      → IsKept candidate c
          (docs (get_or_create_direct collection upserts by_participants candidate s).1)
  unfolding new_chat_document
  returned-IsKept by candidate s c created valid parsed h = go created (
      subst (λ r. IsDirect candidate (docs s) r after) h
        (get_or_create_direct-IsDirect by candidate s))
    where
      after : List ChatDocument
      after = docs (get_or_create_direct collection upserts by candidate s).1

      go : (b : Bool) → IsDirect candidate (docs s) (ok (c, b)) after → IsKept candidate c after
      go false (same, kept) = rw same kept
      go true (is_candidate, (_, _, added)) = (
        new_chat_document candidate,
        rw added (Memᴰ.head refl),
        (pair_of_iff candidate (new_chat_document candidate)).1 (refl, refl),
        to_domain-new_chat_document candidate valid parsed ∙ ap ok (sym is_candidate),
      )

  -- Two users have one chat. When a call returned a chat and a later call, for the same
  -- participants, returns one, the later call has created nothing, and it returns the same chat, if
  -- the chats stored after the first call are stored as they were before the later one, where no
  -- two conflict.
  pub one_chat :
      (by₁ by₂ : Bool) (first later : Chat) (s t : State) {c c' : Chat} {created created' : Bool}
      → IsValid first
      → IsParsed first
      → first.participant_one_id ≡ later.participant_one_id
      → first.participant_two_id ≡ later.participant_two_id
      → (get_or_create_direct collection upserts by₁ first s).0 ≡ ok (c, created)
      → All (λ d. Memᴰ d (docs t)) (docs (get_or_create_direct collection upserts by₁ first s).1)
      → Distinct same_chat (docs t)
      → (get_or_create_direct collection upserts by₂ later t).0 ≡ ok (c', created')
      → (created' ≡ false) × (c' ≡ c)
  one_chat by₁ by₂ first later s t {c} {c'} {created} {created'} valid parsed one two h keep apart
        k =
      let (d, m, p, e) = returned-IsKept by₁ first s c created valid parsed h in
      let (a, b) = (pair_of_iff first d).0 p in
      go created' d (All-member (λ x. Memᴰ x (docs t)) _ d keep m)
        ((pair_of_iff later d).1 (a ∙ one, b ∙ two)) e _
        (subst
          (λ r.
            IsDirect later (docs t) r
              (docs (get_or_create_direct collection upserts by₂ later t).1))
          k (get_or_create_direct-IsDirect by₂ later t))
    where
      go :
          (b : Bool) (d : ChatDocument)
          → Memᴰ d (docs t)
          → pair_of later d ≡ true
          → to_domain d ≡ ok c
          → (after : List ChatDocument) → IsDirect later (docs t) (ok (c', b)) after
          → (b ≡ false) × (c' ≡ c)
      go true d m p e after (_, (n, _, _)) =
          let no = All-member (λ x. pair_of later x ≡ false) (docs t) d n m in absurd (cc)
      go false d m p e after (_, (d', m', p', e')) =
          let same : d ≡ d' =
            Distinct-same same_chat (docs t) d d' apart m m' (pair_of-same_chat later d d' p p')
              (pair_of-same_chat later d' d p' p) in
          (refl, ok_inj (sym e' ∙ ap to_domain (sym same) ∙ e))
