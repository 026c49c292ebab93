-- ===== src/Netaddr/Laws.antt =====
-- What `addressEqual` decides.
use xdm.Base.{true, ◌≡◌, ◌↔◌, refl, arith, equal_iff}
use xdm.Netaddr.{Netaddr, netaddr_family, netaddr_port, netaddr_address, part, address_equal}

pub record IsSameAddress (a b : Netaddr) : Type 0 where
  pub lengths : a.len ≡ b.len
  pub families : netaddr_family a.sa ≡ netaddr_family b.sa
  pub ports : part (netaddr_port a.sa) ≡ part (netaddr_port b.sa)
  pub addresses : part (netaddr_address a.sa) ≡ part (netaddr_address b.sa)

-- `addressEqual` answers yes exactly when the lengths, the families, the ports and the network
-- addresses agree.
pub address_equal_iff : (a b : Netaddr) → (address_equal a b ≡ true) ↔ IsSameAddress a b
unfolding address_equal
address_equal_iff a b = ground (
  arith,
  equal_iff (part (netaddr_port a.sa)) (part (netaddr_port b.sa)),
  equal_iff (part (netaddr_address a.sa)) (part (netaddr_address b.sa)),
)

-- `address_equal` does not depend on the order of its arguments, and every address equals itself.
pub address_equal_refl : (a : Netaddr) → address_equal a a ≡ true
address_equal_refl a =
    (address_equal_iff a a).1
      (record { lengths = refl; families = refl; ports = refl; addresses = refl })

-- Two addresses that are equal compare alike with any other.
pub address_equal-eq :
    (a b c : Netaddr) → address_equal a b ≡ true → address_equal a c ≡ address_equal b c
unfolding address_equal
address_equal-eq a b c e =
    let h = (address_equal_iff a b).0 e in rw (h.lengths, h.families, h.ports, h.addresses) refl
