-- ===== src/Api.antt =====
-- internal/api: the cursors and the sizes of pages.
pub mod Page
