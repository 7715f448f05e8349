-- ===== src/Vector.antt =====
-- vector/vector.c, with vector/vector.h's contract as far as the source shows it: a growing array
-- of `void *` elements with user callbacks.
pub mod Slots
pub mod State
pub mod Capacity
pub mod Contents
pub mod Access
pub mod Ends
pub mod Insert
pub mod Shift
pub mod Erase
pub mod Resize
pub mod Shrink
pub mod Script
pub mod Agree
pub mod Run
mod Tests
pub mod Edit
