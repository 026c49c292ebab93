-- ===== src/Wire.antt =====
-- The XDMCP packets that xdm/xdmcp.c writes with the Xdmcp library: the calls XdmcpWriteHeader,
-- XdmcpWriteCARD32, XdmcpWriteARRAY8, ... between two flushes, in their order, as the fields of a
-- packet. A field holds the value that the call is given.
use xdm.Base.{ℕ, ◌+◌, ◌*◌, ◌%◌, ◌^◌, List, [], ◌∷◌, Bytes, length}

pub data Field : Type 0 where
  card8 : ℕ → Field
  card16 : ℕ → Field
  card32 : ℕ → Field
  array8 : Bytes → Field
  array16 : List ℕ → Field
  array_of_array8 : List Bytes → Field

-- `xdmOpCode` of X11/Xdmcp.h; a header may hold any other number.
pub data Opcode : Type 0 where
  broadcast_query query indirect_query forward_query willing unwilling request : Opcode
  accept decline manage refuse failed keepalive alive : Opcode
  unknown : ℕ → Opcode

-- `XdmcpHeader` and what is written behind it.
pub record Packet : Type 0 where
  pub version : ℕ
  pub opcode : Opcode
  pub length : ℕ
  pub body : List Field

-- The assignment of an int to a CARD16, such as `header.length`.
abbrev pub to_card16 : ℕ → ℕ
to_card16 n = n % 2 ^ 16

-- The assignment to a CARD32.
abbrev pub to_card32 : ℕ → ℕ
to_card32 n = n % 2 ^ 32

-- The bytes of all the strings of a list, each with its two length bytes.
abbrev pub sizes_of : List Bytes → ℕ
sizes_of [] = 0
sizes_of (x ∷ xs) = 2 + length x + sizes_of xs

-- The bytes that the protocol gives each type of field.
abbrev pub size_of : Field → ℕ
size_of (card8 n) = 1
size_of (card16 n) = 2
size_of (card32 n) = 4
size_of (array8 b) = 2 + length b
size_of (array16 l) = 1 + 2 * length l
size_of (array_of_array8 l) = 1 + sizes_of l

abbrev pub body_size : List Field → ℕ
body_size [] = 0
body_size (f ∷ fs) = size_of f + body_size fs

-- X11/Xdmcp.h
abbrev pub xdm_protocol_version : ℕ
xdm_protocol_version = 1
