-- ===== src/Gguf.antt =====
-- src/gguf_probe.rs: the header-only probe of GGUF files.
pub mod Cursor
pub mod Utf8
pub mod Values
pub mod Header
pub mod Probe
pub mod Local
mod Readers
mod Skipping
mod SkipValue
mod Prefix
mod Tests
pub mod Slug
mod SlugShape
