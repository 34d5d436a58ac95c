-- ===== src/Yyssl.antt =====
-- include/yyssl.h: `YYSSL::YYAES`, `YYSSL::YYRSA` and `YYSSL::YYBase64`. A `std::string` is a list of
-- bytes. OpenSSL is a parameter: its block operations, its key formats and its base64 coder.
pub mod Blocks
pub mod Aes
pub mod Rsa
pub mod Base64
pub mod Sizes
