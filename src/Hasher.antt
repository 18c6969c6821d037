-- ===== src/Hasher.antt =====
-- The password hasher (src/hasher): base64, the PHC text and its parser, the comparison.
pub mod Base64
pub mod Split
pub mod Phc
pub mod Compare
pub mod Tests
