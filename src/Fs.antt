-- ===== src/Fs.antt =====
-- fs/: the repositories of bundles.
pub mod Local
mod Tests
