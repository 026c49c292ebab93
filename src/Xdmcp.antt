-- ===== src/Xdmcp.antt =====
-- xdm/xdmcp.c: the XDMCP side of the daemon. `Send` builds the packets; the handlers of incoming
-- packets stand in the other children.
pub mod Send
pub mod Manage
pub mod Query
pub mod Request
pub mod Process
pub mod Spec
