-- ===== src/Format.antt =====
-- webui/js/utils.js: sizes and durations as the console prints them, and small functions on texts.
pub mod Size
pub mod Duration
pub mod Texts
mod Tests
