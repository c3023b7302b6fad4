-- ===== src/Status.antt =====
-- webui/js/objects.js and the functions of webui/js/utils.js that turn a status or a type of the
-- web service into the words, the style class or the icon that the console shows. The texts of
-- the language file, `getText`, are the parameter `text`.
pub mod Enums
pub mod Value
pub mod Numeric
pub mod Job
pub mod File
