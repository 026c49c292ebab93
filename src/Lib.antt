-- ===== src/Lib.antt =====
-- xdm, the X display manager: what its daemon does to the displays it manages.
--
-- The daemon keeps a list of displays. A display comes from a line of the servers file (xdm/file.c) or
-- from an XDMCP request (xdm/xdmcp.c), has a session, a child of the daemon, and, if it is local, an X
-- server, another child. The main loop of xdm/dm.c reaps the children, reads the servers file again
-- when it has changed, and starts, restarts and stops displays; XDMCP clients are looked up in the
-- access file (xdm/access.c), go through a chooser if it says so (xdm/choose.c), and wait in a list of
-- their own between REQUEST and MANAGE (xdm/protodpy.c) with the parameters that xdm/policy.c selects.
--
-- Files:
--   Base        the shared names: tests, lists, C strings and integers; `Result`, a state or a memory
--               fault
--   Netaddr     xdm/netaddr.c: socket addresses and addressEqual
--   Wire        the fields of a packet; Xdmcp/Send: the packets of xdm/xdmcp.c, Framing their lengths
--   Display     include/dm.h: struct display and the daemon's state, with the effects outside it
--   Dpylist     xdm/dpylist.c: the list; Laws and Changes say what one operation changes, Each what a
--               walk of the list keeps
--   File        xdm/file.c: splitIntoWords (Words) and ParseDisplay (Parse, Crashes)
--   Dm/Stop     xdm/dm.c: TerminateProcess, StopDisplay, RestartDisplay
--   Dm/Start    xdm/dm.c: StartDisplay, StartDisplays, AddDisplay; xdm/server.c: StartServer
--   Dm/Status   the invariant of the list of displays
--   Dm/Child    xdm/dm.c: WaitForChild, RescanServers, ScanServers; Revival is about what comes up again
--   Access      xdm/access.c: patternMatch (Pattern) and the lookups of the access file (Database)
--   Access/Words, Access/Read  xdm/access.c: ReadWord, and the entries of the access file
--   Xdmcp/Query   xdm/xdmcp.c: the answers to queries, and the forwarding of indirect ones
--   Xdmcp/Request xdm/xdmcp.c: request_respond
--   Xdmcp/Manage  xdm/xdmcp.c: manage and send_alive
--   Xdmcp/Process xdm/xdmcp.c: ProcessRequestSocket; xdm/dm.c: the loop of main. Xdmcp/Spec is the
--                 abstract protocol, a table of session ids, that Process/Refines relates it to
--   Choose      xdm/choose.c: indirect clients, choices, and the formats of addresses
--   Protodpy    xdm/protodpy.c: the accepted displays
--   Policy      xdm/policy.c: the selections among what a REQUEST offers, and Willing
--   Auth        xdm/auth.c: the user's authority file; Rewrite is about setting and removing,
--               Written and Covers about the entries
--   Xdmauth     xdm/xdmauth.c: the keys file, and XDM's own authentication and authorization
--   Login       greeter/Login.c: the keys of the login widget (Keys); Line is the abstract line that
--               Holds, Edits and Actions relate them to, Buffer is about the arrays
--   Util        xdm/util.c: getEnv and setEnv
--   Tests       all of these on concrete inputs
--
-- A function keeps its name, in lower case; the state that C keeps in statics is passed along. A pointer
-- to a display is a number, `addr`; following it after the display was freed, following a null pointer
-- and reading outside an array are values of `Fault`, so that a result `ok` says that they do not occur.
-- What the daemon does to processes, files and sockets is the list `effects`. Counters of C type int are
-- natural numbers, and do not overflow; the test on times in xdm/protodpy.c has its wrap-around.
--
-- Outside the model, as arguments: the outcome of fork, whether a new server is dead, the resources and
-- the authorizations of a display (`Host`), the ends of children as waitpid tells them, the lines of the
-- servers file, the line that the willing program prints, the fields that libXdmcp reads from a packet,
-- the ciphers of libXdmcp, random bytes, XDM's own authentication where a REQUEST is answered, the names of addresses, the addresses of the interfaces, the clock, and the memory for a
-- new entry where the code recovers from its lack. The log, the child's side of each fork (session.c),
-- Xlib, greet.c and verify.c, the chooser program and xdmshell are not modelled; of the login widget, the
-- drawing is left out, and the widths of fields are not negative.
--
-- Bounds: StartServer's loop has fuel `patience`, which is enough when it is more than serverAttempts;
-- with serverAttempts 0 the source's loop may run for ever. Words are split with the
-- length of the line as fuel, which is enough as every round takes a character. Aliases are followed to
-- MAX_DEPTH, as in the source. The loops that read the access file have the characters that are left
-- as fuel, and one more, which is enough as every round that goes on takes one.
pub mod Base
pub mod Login
pub mod Netaddr
pub mod Wire
pub mod Display
pub mod Dpylist
pub mod Auth
pub mod Xdmauth
pub mod Xdmcp
pub mod File
pub mod Dm
pub mod Access
pub mod Choose
pub mod Protodpy
pub mod Policy
pub mod Util
pub mod Tests
