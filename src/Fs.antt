-- ===== src/Fs.antt =====
-- filesystems-checker: a checker for xv6 file-system images.
pub mod Disk
pub mod Bitmap
pub mod Checks
pub mod Walk
pub mod Program
mod Tests
