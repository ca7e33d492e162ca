-- ===== src/Stdio.antt =====
-- stdio.h: streams, which are file descriptors in disguise, printf and scanf.
pub mod Streams
pub mod Printf
pub mod Scanf
