-- ===== src/Platform.antt =====
-- What the program takes from outside the repository: the document database, and the Unicode
-- tables behind `str.lower` and `str.casefold`.
pub mod Collections
pub mod Mongo
pub mod Pages
pub mod Text
