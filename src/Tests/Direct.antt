-- ===== src/Tests/Direct.antt =====
-- A user without chats writes to another one.
use nexus_services.Shared.{◌≡◌, refl, true, some, [], ◌∷◌, ok}
use nexus_services.Text.{bytes, text_eq, text_lt, trim_space}
use nexus_services.Mongo.{Collection, Upserts, memory, memory_upserts}
use nexus_services.Domain.User
use nexus_services.Domain.User.{MailSyntax, parse_email, new_password_hash}
use nexus_services.Domain.Chat
use nexus_services.Domain.Chat.{new_direct, restore_direct, order_participants, related_user_id}
use nexus_services.Users.Document
use nexus_services.Users.Document.{UserDocument}
use nexus_services.Users.Repository
use nexus_services.Users.Repository.{same_user, has_user_id, account_found}
use nexus_services.Chats.Document.{ChatDocument, new_chat_document}
use nexus_services.Chats.Repository.{same_chat, of_participants, answered, get_or_create_direct}
use nexus_services.Chats.Direct.{CreateDirectOutput, parse_users, related_found, direct_output}
use nexus_services.Chats.CreateDirect.{
  CreateDirectDependencies, find_related, candidate, create_direct,
}
use nexus_services.Chats.Wired.{World, wired, user_reply, chat_reply}
use nexus_services.Chats.Partners.{IsChatWith, create_direct-IsChatWith}

abbrev bob : UserDocument
bob = record {
  id = bytes "bob";
  email = bytes "b@c.example";
  password_hash = bytes "hash";
  created_at = 4;
}

abbrev plain : MailSyntax
plain = record { to_lower = λ t. t; parse_address = λ t. some t }

abbrev registry : Collection UserDocument same_user
registry = memory same_user

abbrev talks : Collection ChatDocument same_chat
talks = memory same_chat

abbrev upserts : Upserts talks
unfolding memory
upserts = memory_upserts same_chat

abbrev services : CreateDirectDependencies (World plain registry talks upserts (Unit {0}))
services = wired plain registry talks upserts true (λ v. (ok (bytes "c1"), v)) (λ v. (5, v))

abbrev only_bob : World plain registry talks upserts (Unit {0})
unfolding memory
only_bob = record { user_state = bob ∷ []; chat_state = []; rest = tt }

abbrev with_bob : CreateDirectOutput
with_bob = record {
  id = bytes "c1";
  related_user = bytes "bob";
  created_at = 5;
  updated_at = 5;
  summary_sort_at = 5;
  created = true;
}

bob_addressed : (create_direct services (bytes " ann ") (bytes "bob") only_bob).0 ≡ ok with_bob
unfolding create_direct find_related parse_users related_found candidate direct_output new_direct
    restore_direct order_participants related_user_id Chat.parse_id User.parse_id trim_space text_eq
    text_lt wired user_reply chat_reply memory memory_upserts only_bob answered get_or_create_direct
    Repository.find_by_id has_user_id account_found Document.to_domain parse_email new_password_hash
    User.new of_participants new_chat_document
bob_addressed = refl

create_direct-IsChatWith_example :
    IsChatWith plain registry talks upserts
      (Unit {0})
      true
      (λ v. (ok (bytes "c1"), v))
      (λ v. (5, v))
      (bytes " ann ")
      (bytes "bob")
      only_bob.user_state
      (create_direct services (bytes " ann ") (bytes "bob") only_bob).1.chat_state
      with_bob
create_direct-IsChatWith_example =
    create_direct-IsChatWith plain registry talks upserts (Unit {0}) true
      (λ v. (ok (bytes "c1"), v)) (λ v. (5, v)) (bytes " ann ") (bytes "bob") only_bob bob_addressed
