-- ===== src/Dm.antt =====
-- xdm/dm.c and xdm/server.c: the life of a display. `Stop`, `Start` and `Child` hold the operations in
-- the order in which they use one another; `Status` and `Frame` prove what they keep.
pub mod Stop
pub mod Start
pub mod Status
pub mod Child
