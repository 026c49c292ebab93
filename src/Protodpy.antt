-- ===== src/Protodpy.antt =====
-- xdm/protodpy.c: the displays that were accepted by a REQUEST and have not sent their MANAGE. `addr`
-- is the pointer to one. The key and the authorization for XDMCP itself are left out.
pub mod Drops
pub mod Timeout
use xdm.Base.{
  ℕ, ◌+◌, ◌-◌, ◌%◌, ◌^◌, Bool, true, false, ◌&&◌, List, [], ◌∷◌, ◌==◌, ltb, if◌then◌else◌, Option,
  none, some, Bytes, find?,
}
use xdm.Netaddr.{Netaddr, address_equal}
use xdm.Display.{Xauth}

pub record ProtoDisplay : Type 0 where
  pub addr : ℕ
  pub address : Netaddr
  pub date : ℕ
  pub display_number : ℕ
  pub connection_type : ℕ
  pub connection_address : Bytes
  pub session_id : ℕ
  pub file_authorization : Option Xauth

-- `protoDisplays`, and the heap's next unused address.
pub record Protos : Type 0 where
  pub proto_displays : List ProtoDisplay
  pub next_addr : ℕ

abbrev pub proto_timeout : ℕ
proto_timeout = 1800

abbrev pub is_proto : Netaddr → ℕ → ProtoDisplay → Bool
is_proto address n p = p.display_number == n && address_equal address p.address

unfoldable pub find_proto_display : Netaddr → ℕ → Protos → Option ProtoDisplay
find_proto_display address n ps = find? (is_proto address n) ps.proto_displays

-- The entry with that pointer leaves the list; a pointer that is not on the list is passed over.
abbrev pub unlink_proto : ℕ → List ProtoDisplay → List ProtoDisplay
unlink_proto a [] = []
unlink_proto a (p ∷ ps) = if p.addr == a then ps else p ∷ unlink_proto a ps

unfoldable pub dispose_proto_display : ℕ → Protos → Protos
dispose_proto_display a ps = record ps { proto_displays = unlink_proto a ps.proto_displays }

-- `pdpy->date < now - PROTO_TIMEOUT`, an unsigned long against a time that is made one.
abbrev pub is_stale : ℕ → ProtoDisplay → Bool
is_stale now p = ltb p.date ((now + 2 ^ 64 - proto_timeout) % 2 ^ 64)

-- The walk of the list as it was, the list as it is.
unfoldable pub timeout_from : ℕ → List ProtoDisplay → Protos → Protos
timeout_from now [] ps = ps
timeout_from now (p ∷ rest) ps =
    timeout_from now rest (if is_stale now p then dispose_proto_display p.addr ps else ps)

unfoldable pub timeout_proto_displays : ℕ → Protos → Protos
timeout_proto_displays now ps = timeout_from now ps.proto_displays ps

-- `memory` tells whether all the allocations succeed.
unfoldable pub new_proto_display :
    Bool → ℕ → Netaddr → ℕ → ℕ → Bytes → ℕ → Protos → Option ProtoDisplay × Protos
new_proto_display memory now address n t connection_address session_id ps =
    let kept = timeout_proto_displays now ps in
    let made : ProtoDisplay = record {
      addr = kept.next_addr;
      address = address;
      date = now;
      display_number = n;
      connection_type = t;
      connection_address = connection_address;
      session_id = session_id;
      file_authorization = none;
    } in
    if memory
    then (
      some made,
      record { proto_displays = made ∷ kept.proto_displays; next_addr = kept.next_addr + 1 },
    )
    else (none, kept)

-- A store through the pointer.
abbrev pub map_proto_list :
    ℕ → (ProtoDisplay → ProtoDisplay) → List ProtoDisplay → List ProtoDisplay
map_proto_list a f [] = []
map_proto_list a f (p ∷ ps) = if p.addr == a then f p ∷ ps else p ∷ map_proto_list a f ps

abbrev pub map_proto : ℕ → (ProtoDisplay → ProtoDisplay) → Protos → Protos
map_proto a f ps = record ps { proto_displays = map_proto_list a f ps.proto_displays }
