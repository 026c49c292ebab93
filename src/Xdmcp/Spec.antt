-- ===== src/Xdmcp/Spec.antt =====
-- What the manager's part of XDMCP is about: which displays have been accepted, under which session
-- id, and the displays that are managed.
use xdm.Base.{ℕ, ◌+◌, ◌%◌, ◌^◌, false, ◌&&◌, ◌==◌, List, Option, none, some, ◌≡◌, ◌⊎◌}
use xdm.Netaddr.{Netaddr, address_equal}
use xdm.Wire.{to_card32}
use xdm.Display.{Display}
use xdm.Protodpy.Drops.{session_in}
use xdm.Xdmcp.Request.{Server}

-- The accepted displays are a table of session ids; their order, age and connection are forgotten.
pub record Protocol : Type 0 where
  pub session : Netaddr → ℕ → Option ℕ
  pub last : ℕ
  pub displays : List Display

abbrev pub view : Server → Protocol
view v = record {
  session = λ a n. session_in a n v.manager.protos.proto_displays;
  last = v.session_id;
  displays = v.manager.daemon.displays;
}

-- A packet as the protocol sees it: a display asks to be accepted, or claims the session that it was
-- given, or anything else.
pub data Event : Type 0 where
  asks : Netaddr → ℕ → Event
  claims : Netaddr → ℕ → ℕ → Event
  tells : Event

-- An entry of the table stays or goes.
abbrev pub StaysOrGoes : Protocol → Protocol → Netaddr → ℕ → Type 0
StaysOrGoes x y a n = (y.session a n ≡ x.session a n) ⊎ (y.session a n ≡ none)

-- The session id behind the last one, an unsigned long.
abbrev pub next : ℕ → ℕ
next last = (last + 1) % 2 ^ 64

-- What a packet may do. Only what asks is entered in the table, as the only display, and under the next session id; only
-- what claims the session of the table changes the displays.
pub data Moves (x y : Protocol) : Event → Type 0 where
  answers :
      {e : Event}
      → ((b : Netaddr) (m : ℕ) → StaysOrGoes x y b m)
      → y.last ≡ x.last
      → y.displays ≡ x.displays
      → Moves x y e
  accepts :
      {a : Netaddr} {n : ℕ}
      → x.session a n ≡ none
      → (y.session a n ≡ none) ⊎ (y.session a n ≡ some (to_card32 y.last))
      → ((b : Netaddr) (m : ℕ) → (n == m && address_equal b a) ≡ false → StaysOrGoes x y b m)
      → y.last ≡ next x.last
      → y.displays ≡ x.displays
      → Moves x y (asks a n)
  begins :
      {a : Netaddr} {n id : ℕ}
      → x.session a n ≡ some id
      → ((b : Netaddr) (m : ℕ) → StaysOrGoes x y b m)
      → y.last ≡ x.last
      → Moves x y (claims a n id)
