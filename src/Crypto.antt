-- ===== src/Crypto.antt =====
-- src/upstream_api_compat.cpp: the hash, the message authentication and the software cipher, which
-- stand in where no provider is registered, and the credentials of managed nodes.
pub mod Sha256
pub mod Streaming
pub mod Hmac
pub mod Cipher
pub mod Masking
pub mod KeyStream
pub mod Seal
pub mod Credential
pub mod Signature
