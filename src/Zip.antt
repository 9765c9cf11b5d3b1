-- ===== src/Zip.antt =====
-- Run-length compression: initial-utilities/wzip, initial-utilities/wunzip and concurrency-pzip/wzip.
pub mod Runs
pub mod Wzip
pub mod Pzip
pub mod Pzip1
pub mod Pzip2
mod Tests
