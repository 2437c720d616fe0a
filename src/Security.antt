-- ===== src/Security.antt =====
-- How the texts of messages are hidden from the search index, message/security/: strings of UTF-16
-- units, and the encryption of each character.
pub mod Utf16
pub mod Encryptor
