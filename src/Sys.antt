-- ===== src/Sys.antt =====
-- sys.h and the headers below sys/: system calls over a kernel that is a parameter.
pub mod Numbers
pub mod World
pub mod Files
pub mod Fds
pub mod Processes
pub mod Memory
pub mod Open
pub mod System
pub mod Seek
pub mod Select
pub mod Time
pub mod Stat
pub mod Dirent
pub mod Resource
pub mod Wait
