-- ===== src/Config.antt =====
-- src/anraft/config.h, and the one memory storage that every configuration refers to
-- (`NewMemoryStorage` in src/anraft/storage.cpp).
mod Defs
unfoldable pub use Defs.*
