-- ===== src/Wire.antt =====
-- src/serialize.cpp: the packed wire format, one module for each group of its functions.
pub mod Checksum
pub mod Uleb
pub mod Ids
pub mod Header
pub mod Bitmap
pub mod Compress
pub mod Parse
pub mod Frame
