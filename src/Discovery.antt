-- ===== src/Discovery.antt =====
-- discovery.py: browsing a server's address space and mapping every scalar Variable.
pub mod Filter
pub mod Reading
pub mod Naming
pub mod Subtypes
pub mod Datatypes
pub mod Describe
pub mod Browse
pub mod Walk
pub mod Discover
