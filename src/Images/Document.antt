-- ===== src/Images/Document.antt =====
-- The asset of internal/domain/image and the document of image_repository. A missing text is the
-- empty one, as it decodes.
use nexus_services.Shared.{ℕ, Bool, true, false, ◌||◌, ◌&&◌, Time}
use nexus_services.Text.{Text, text_eq}

-- "PENDING", "READY", "ATTACHED", "DELETING", "DELETED"
pub data ImageStatus : Type 0 where
  pending ready attached deleting deleted : ImageStatus

pub record ImageDocument : Type 0 where
  pub id : Text
  pub uploaded_by : Text
  pub chat_id : Text
  pub client_upload_id : Text
  pub bucket : Text
  pub object_key : Text
  pub content_type : Text
  pub checksum : Text
  pub size_bytes : ℕ
  pub width : ℕ
  pub height : ℕ
  pub status : ImageStatus
  pub message_id : Text
  pub upload_token : Text
  pub delete_token : Text
  pub created_at : Time
  pub expires_at : Time
  pub locked_until : Time
  pub cleanup_after : Time
  pub delete_started_at : Time

abbrev pub is_ready : ImageStatus → Bool
is_ready ready = true
is_ready _ = false

-- The `_id` and the unique index `image_upload_identity`.
abbrev pub image_conflicts : ImageDocument → ImageDocument → Bool
image_conflicts x y =
    text_eq x.id y.id
    || (text_eq x.uploaded_by y.uploaded_by && text_eq x.client_upload_id y.client_upload_id)
