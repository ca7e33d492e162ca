-- ===== src/Start.antt =====
-- The start of a program: `_start_c` of crt.h, which the entry code in assembly calls with the stack
-- pointer, the stack protector, the auxiliary vector, and the end by `exit`.
pub mod Guard
pub mod Auxv
pub mod Entry
