-- ===== src/Xdmcp/Send/Framing.antt =====
-- Every packet announces in its header the number of bytes behind it.
use xdm.Base.{ℕ, ◌+◌, ◌<◌, ◌≤◌, ◌^◌, ◌≡◌, List, Bytes, length, arith, length-take-le}
use xdm.Wire.{Packet, body_size, sizes_of}
use xdm.Xdmcp.Send.{
  willing_packet, unwilling_packet, accept_packet, decline_packet, failed_message, failed_text,
  failed_packet, forward_packet,
}

abbrev pub IsFramed : Packet → Type 0
IsFramed p = p.length ≡ body_size p.body

failed_text-le : (id : ℕ) (name reason : Bytes) → length (failed_text id name reason) ≤ 255
unfolding failed_text
failed_text-le id name reason = length-take-le 255 (failed_message id name reason)

-- The `Failed` packet is always well framed: its text is cut to 255 bytes.
pub failed_packet-IsFramed :
    (id : ℕ) (name reason : Bytes)
    → IsFramed (failed_packet id name reason) × (length (failed_text id name reason) ≤ 255)
unfolding failed_packet
failed_packet-IsFramed id name reason = omega (arith, failed_text-le id name reason)

-- The packets whose parts come from outside are well framed whenever what they carry fits the
-- header's CARD16: Willing, Unwilling, Accept, Decline and ForwardQuery.
pub reply_packets-IsFramed :
    (a b c d : Bytes) (names : List Bytes) (id : ℕ)
    → 12 + length a + length b + length c + length d + sizes_of names < 2 ^ 16
    → IsFramed (willing_packet a b c)
      × IsFramed (unwilling_packet a b)
      × IsFramed (accept_packet id a b c d)
      × IsFramed (decline_packet a b c)
      × IsFramed (forward_packet a b names)
unfolding willing_packet unwilling_packet accept_packet decline_packet forward_packet
reply_packets-IsFramed a b c d names id h = omega arith
