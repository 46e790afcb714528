-- ===== src/Domain/Timeline/Contents.antt =====
-- Which contents are accepted.
use nexus_services.Shared.{◌≤◌, ◌≡◌, ◌≢◌, ◌⊎◌, true, false, ok, [], arith, length}
use nexus_services.Text.{Text, is_empty, text_eq_iff, trim_space, valid_string, rune_count}
use nexus_services.Domain.Timeline.Content.{
  ContentType, content_type_text, content_type_image, MessageContent, restore_content,
}

-- A text that is not blank and nothing else.
pub record IsText (kind : ContentType) (value image_id caption : Text) : Type 0 where
  pub kind_text : kind ≡ content_type_text
  pub no_image : image_id ≡ []
  pub no_caption : caption ≡ []
  pub full : is_empty (trim_space value) ≡ false

-- An image with a trimmed id of at most 128 bytes and a caption of at most 4000 characters.
pub record IsImage (kind : ContentType) (value image_id caption : Text) : Type 0 where
  pub kind_image : kind ≡ content_type_image
  pub no_value : value ≡ []
  pub id_full : image_id ≢ []
  pub id_trimmed : trim_space image_id ≡ image_id
  pub id_short : length image_id ≤ 128
  pub caption_valid : valid_string caption ≡ true
  pub caption_short : rune_count caption ≤ 4000

restore_content_accepts :
    (kind value image_id caption : Text)
    → IsText kind value image_id caption ⊎ IsImage kind value image_id caption
    → restore_content kind value image_id caption
      ≡ ok (record { content_type = kind; value = value; image_id = image_id; caption = caption })
unfolding restore_content
restore_content_accepts kind value image_id caption h = ground (
  arith,
  text_eq_iff kind content_type_text,
  text_eq_iff kind content_type_image,
  text_eq_iff (trim_space image_id) image_id,
)

restore_content_only :
    (kind value image_id caption : Text) {content : MessageContent}
    → restore_content kind value image_id caption ≡ ok content
    → IsText kind value image_id caption ⊎ IsImage kind value image_id caption
unfolding restore_content
restore_content_only kind value image_id caption h = ground (
  arith,
  text_eq_iff kind content_type_text,
  text_eq_iff kind content_type_image,
  text_eq_iff (trim_space image_id) image_id,
)

-- A content is accepted exactly when it is a text or an image, and it then keeps its four parts.
pub restore_content_decides :
    (kind value image_id caption : Text)
    → (IsText kind value image_id caption ⊎ IsImage kind value image_id caption
        → restore_content kind value image_id caption
          ≡ ok (record {
            content_type = kind;
            value = value;
            image_id = image_id;
            caption = caption;
          }))
      × ((content : MessageContent)
          → restore_content kind value image_id caption ≡ ok content
          → IsText kind value image_id caption ⊎ IsImage kind value image_id caption)
restore_content_decides kind value image_id caption = (
  restore_content_accepts kind value image_id caption,
  λ content h. restore_content_only kind value image_id caption h,
)
