-- ===== src/Stdlib.antt =====
-- stdlib.h, a module for each family of functions: numbers to text, text to numbers, the static buffer,
-- the heap, and the duplicates of strings that stand on it.
pub mod Decimal
pub mod Hex
pub mod Atol
pub mod Strtox
pub mod Buffer
pub mod Heap
pub mod Duplicate
