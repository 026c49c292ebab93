-- ===== src/Xdmcp/Send.antt =====
-- The packets that xdm/xdmcp.c sends. Each function is the packet that the source writes and
-- flushes; `header.length` is a CARD16, and so are the lengths of the ARRAY8s. A session id is a
-- CARD32.
pub mod Framing
use xdm.Base.{ℕ, ◌+◌, Bool, List, [], ◌∷◌, ◌++◌, if◌then◌else◌, Bytes, codes, decimal, length, take}
use xdm.Wire.{
  Field, card8, card32, array8, array_of_array8, Packet, Opcode, to_card16, sizes_of,
  xdm_protocol_version,
}

-- `send_willing`; the hostname is `getHostname ()`.
unfoldable pub willing_packet : Bytes → Bytes → Bytes → Packet
willing_packet hostname authentication_name status = record {
  version = xdm_protocol_version;
  opcode = Opcode.willing;
  length = to_card16 (6 + length authentication_name + length hostname + length status);
  body = array8 authentication_name ∷ array8 hostname ∷ array8 status ∷ [];
}

-- `send_unwilling`
unfoldable pub unwilling_packet : Bytes → Bytes → Packet
unwilling_packet hostname status = record {
  version = xdm_protocol_version;
  opcode = Opcode.unwilling;
  length = to_card16 (4 + length hostname + length status);
  body = array8 hostname ∷ array8 status ∷ [];
}

-- `send_accept`
unfoldable pub accept_packet : ℕ → Bytes → Bytes → Bytes → Bytes → Packet
accept_packet session_id authentication_name authentication_data authorization_name
      authorization_data =
    record {
      version = xdm_protocol_version;
      opcode = Opcode.accept;
      length = to_card16 (
          4
          + (2 + length authentication_name)
          + (2 + length authentication_data)
          + (2 + length authorization_name)
          + (2 + length authorization_data));
      body =
          card32 session_id
          ∷ array8 authentication_name
          ∷ array8 authentication_data
          ∷ array8 authorization_name
          ∷ array8 authorization_data
          ∷ [];
    }

-- `send_decline`
unfoldable pub decline_packet : Bytes → Bytes → Bytes → Packet
decline_packet authentication_name authentication_data status = record {
  version = xdm_protocol_version;
  opcode = Opcode.decline;
  length =
      to_card16
        ((2 + length status) + (2 + length authentication_name) + (2 + length authentication_data));
  body = array8 status ∷ array8 authentication_name ∷ array8 authentication_data ∷ [];
}

-- The format of `send_failed`, "Session %ld failed for display %.100s: %s": 100 bytes of the name.
failed_message : ℕ → Bytes → Bytes → Bytes
failed_message session_id name reason =
    codes "Session "
    ++ (decimal session_id
        ++ (codes " failed for display " ++ (take 100 name ++ (codes ": " ++ reason))))

-- What snprintf puts into `buf`, 255 bytes at most.
unfoldable pub failed_text : ℕ → Bytes → Bytes → Bytes
unfolding failed_message
failed_text session_id name reason = take 255 (failed_message session_id name reason)

-- `send_failed`
unfoldable pub failed_packet : ℕ → Bytes → Bytes → Packet
failed_packet session_id name reason = record {
  version = xdm_protocol_version;
  opcode = Opcode.failed;
  length = to_card16 (6 + length (failed_text session_id name reason));
  body = card32 session_id ∷ array8 (failed_text session_id name reason) ∷ [];
}

-- `send_refuse`
unfoldable pub refuse_packet : ℕ → Packet
refuse_packet session_id = record {
  version = xdm_protocol_version;
  opcode = Opcode.refuse;
  length = 4;
  body = card32 session_id ∷ [];
}

-- The packet of `send_alive`.
unfoldable pub alive_packet : Bool → ℕ → Packet
alive_packet send_running send_session_id = record {
  version = xdm_protocol_version;
  opcode = Opcode.alive;
  length = 5;
  body = card8 (if send_running then 1 else 0) ∷ card32 send_session_id ∷ [];
}

-- The packet of `adjustAddress` and of `indirect_respond`.
unfoldable pub forward_packet : Bytes → Bytes → List Bytes → Packet
forward_packet client_address client_port authentication_names = record {
  version = xdm_protocol_version;
  opcode = Opcode.forward_query;
  length = to_card16 (
      (2 + length client_address) + (2 + length client_port) + (1 + sizes_of authentication_names));
  body = array8 client_address ∷ array8 client_port ∷ array_of_array8 authentication_names ∷ [];
}
