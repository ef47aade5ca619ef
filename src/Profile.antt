-- ===== src/Profile.antt =====
-- utils/Profile.cpp and utils/Profile.h: the ini files of the program.
pub mod Trimming
pub mod Build
pub mod Lookup
pub mod Printer
pub mod Load
