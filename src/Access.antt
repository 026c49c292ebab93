-- ===== src/Access.antt =====
-- xdm/access.c.
pub mod Pattern
pub mod Words
pub mod Database
pub mod Read
