-- ===== src/Images.antt =====
-- Images: internal/domain/image and their documents (internal/resources/mongodb/image_repository).
pub mod Document
