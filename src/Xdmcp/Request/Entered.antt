-- ===== src/Xdmcp/Request/Entered.antt =====
-- An accepted display in the table.
use xdm.Base.{ℕ, true, false, ◌&&◌, List, ◌==◌, Option, none, some, Bytes, ◌≡◌, ◌⊎◌, inl, inr, ◌∙◌}
use xdm.Base.Result.{ok}
use xdm.Netaddr.{Netaddr, address_equal, convert_addr}
use xdm.Wire.{to_card32, request}
use xdm.Protodpy.{ProtoDisplay}
use xdm.Protodpy.Drops.{Drops, Drops-none, session_in}
use xdm.Policy.{Connection, select_connection_type_index}
use xdm.Policy.Willing.{Site}
use xdm.Access.Database.{acceptable_display_address, is_local_address}
use xdm.Xdmcp.Manage.{Arrival}
use xdm.Xdmcp.Spec.{view}
use xdm.Xdmcp.Request.{Request, Server, next_session_id}
use xdm.Xdmcp.Request.Quiet.{IsQuiet, AreTable}

-- The access file admits the sender of a REQUEST, which offers a connection that xdm can use.
pub record IsAdmitted (s : Site) (a : Arrival) (q : Request) : Type 0 where
  pub family : ℕ
  pub client : Bytes
  pub connection : Connection
  pub sender : convert_addr a.from.sa ≡ (some family, client)
  pub allowed :
      acceptable_display_address s.has_access_file s.database
        (s.client_name client family)
        client
        family
        request
      ≡ ok true
  pub chosen :
      select_connection_type_index
        (is_local_address s.interfaces)
        client
        family
        q.connection_types
        q.connection_addresses
      ≡ ok (some connection)

-- A session id was given, and it is that of the display, if it stayed accepted.
pub record IsEntered (a : Arrival) (n : ℕ) (v w : Server) : Type 0 where
  pub last : w.session_id ≡ next_session_id v
  pub displays : w.manager.daemon.displays ≡ v.manager.daemon.displays
  pub next_addr : w.manager.daemon.next_addr ≡ v.manager.daemon.next_addr
  pub distinct : AreTable w
  pub self :
      ((view w).session a.from n ≡ none)
      ⊎ ((view w).session a.from n ≡ some (to_card32 w.session_id))
  pub others :
      (b : Netaddr) (m : ℕ)
      → (n == m && address_equal b a.from) ≡ false
      → ((view w).session b m ≡ (view v).session b m) ⊎ ((view w).session b m ≡ none)

Drops-at :
    (ps qs : List ProtoDisplay) (a : Netaddr) (n : ℕ) (o : Option ℕ)
    → Drops ps qs
    → (session_in a n ps ≡ none) ⊎ (session_in a n ps ≡ o)
    → (session_in a n qs ≡ none) ⊎ (session_in a n qs ≡ o)
Drops-at ps qs a n o g (inl e) = inl (Drops-none ps qs a n g e)
Drops-at ps qs a n o g (inr e) = elim (g.found a n) [ inl f ↦ inr (f ∙ e) | inr f ↦ inl f ]

pub IsEntered-IsQuiet :
    (a : Arrival) (n : ℕ) (u v w : Server) → IsEntered a n u v → IsQuiet v w → IsEntered a n u w
IsEntered-IsQuiet a n u v w g h = record {
  last = h.last ∙ g.last;
  displays = h.displays ∙ g.displays;
  next_addr = h.next_addr ∙ g.next_addr;
  distinct = h.drops.distinct;
  self = rw h.last (
      Drops-at v.manager.protos.proto_displays w.manager.protos.proto_displays a.from n
        (some (to_card32 v.session_id)) h.drops g.self);
  others = λ b m ne. elim (h.drops.found b m) [
    | inr e ↦ inr e
    | inl e ↦ elim (g.others b m ne) [ inl f ↦ inl (e ∙ f) | inr f ↦ inr (e ∙ f) ]
  ];
}
