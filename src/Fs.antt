-- ===== src/Fs.antt =====
-- fs/: the file system on a disk of 512-byte sectors.
pub mod Ata
pub mod Disk
pub mod Sync
pub mod Sectors
pub mod File
pub mod Directory
pub mod Open
pub mod Format
pub mod Calls
mod Tests
