-- ===== src/Fat.antt =====
-- drivers/fs/fat.c: the FAT12 file system.
pub mod Dir
pub mod Disk
pub mod Change
pub mod Create
pub mod Monad
pub mod Names
pub mod Read
pub mod Remove
pub mod Rules
pub mod Table
