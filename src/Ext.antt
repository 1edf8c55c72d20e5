-- ===== src/Ext.antt =====
-- The libraries that the code calls and does not implement, as parameters: the operations that it
-- uses, with what their documentation says of them. `Models` has an instance of each.
pub mod Rings
pub mod Utringbuffer
pub mod Assoc
pub mod Uthash
pub mod Utarray
pub mod Doubles
pub mod Qsort
pub mod Models
pub mod Insertion
pub mod Integers
pub mod Arithmetic
pub mod Czmq
pub mod Getopt
pub mod Jansson
pub mod JsonValues
