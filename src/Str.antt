-- ===== src/Str.antt =====
-- string.h, a module for each family of functions: blocks of memory (`memcpy` and the like), scans
-- of one string (`strlen`, `strchr`), comparison, copying, the search for a substring, letter case.
pub mod Block
pub mod Scan
pub mod Compare
pub mod Copy
pub mod Search
pub mod Case
