-- ===== src/Tests/Packets.antt =====
-- xdm/xdmcp.c: packets.
use xdm.Base.{◌≤◌, [], ◌∷◌, codes, length, arith}
use xdm.Xdmcp.Send.{
  willing_packet, unwilling_packet, accept_packet, decline_packet, failed_text, failed_packet,
  forward_packet,
}
use xdm.Xdmcp.Send.Framing.{IsFramed, failed_packet-IsFramed, reply_packets-IsFramed}

failed_packet-IsFramed_example :
    IsFramed (failed_packet 5 (codes "far:0") (codes "Cannot open display"))
    × (length (failed_text 5 (codes "far:0") (codes "Cannot open display")) ≤ 255)
failed_packet-IsFramed_example =
    failed_packet-IsFramed 5 (codes "far:0") (codes "Cannot open display")

reply_packets-IsFramed_example :
    IsFramed (willing_packet (codes "h") (codes "a") [])
    × IsFramed (unwilling_packet (codes "h") (codes "a"))
    × IsFramed (accept_packet 9 (codes "h") (codes "a") [] (codes "k"))
    × IsFramed (decline_packet (codes "h") (codes "a") [])
    × IsFramed (forward_packet (codes "h") (codes "a") (codes "x" ∷ []))
reply_packets-IsFramed_example =
    reply_packets-IsFramed (codes "h") (codes "a") [] (codes "k") (codes "x" ∷ []) 9 (omega arith)
