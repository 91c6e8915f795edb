-- ===== src/Mem.antt =====
-- Memory as the program reads it: a pointer is the list of bytes from it to the end of its object.
-- The C library's functions on such pointers are in Mem/Libc, their laws in Mem/Laws.
pub mod Run
pub mod Libc
pub mod Strtol
pub mod Laws
pub mod Ends
pub mod Text
pub mod TextEnds
