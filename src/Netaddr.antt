-- ===== src/Netaddr.antt =====
-- xdm/netaddr.c: what xdm reads off a socket address. An address is its family's structure and the
-- length that is carried beside it; the families are those of a build with UNIXCONN, TCPCONN and IPv6.
pub mod Laws
use xdm.Base.{
  ℕ, ◌+◌, Bool, true, false, ◌&&◌, not, List, [], ◌∷◌, ◌++◌, ◌==◌, if◌then◌else◌, Bytes, equal,
  length, take, drop, Option, none, some,
}

-- `struct sockaddr` by its family: AF_UNSPEC, AF_UNIX with `sun_path`, AF_INET with `sin_port` and
-- `sin_addr`, AF_INET6 with `sin6_port`, `sin6_addr` and `sin6_scope_id`, or any other family.
pub data SockAddr : Type 0 where
  unspec : SockAddr
  unix : Bytes → SockAddr
  inet : Bytes → Bytes → SockAddr
  inet6 : Bytes → Bytes → ℕ → SockAddr
  other : ℕ → SockAddr

-- An `XdmcpNetaddr` with its length.
pub record Netaddr : Type 0 where
  pub sa : SockAddr
  pub len : ℕ

-- The X protocol families of X11/X.h and X11/Xauth.h.
abbrev pub family_internet : ℕ
family_internet = 0

abbrev pub family_internet6 : ℕ
family_internet6 = 6

abbrev pub family_local_host : ℕ
family_local_host = 252

abbrev pub family_local : ℕ
family_local = 256

abbrev pub family_wild : ℕ
family_wild = 65535

-- The socket families of the structures above; `other n` is the n-th of the rest.
abbrev pub netaddr_family : SockAddr → ℕ
netaddr_family unspec = 0
netaddr_family (unix path) = 1
netaddr_family (inet port addr) = 2
netaddr_family (inet6 port addr scope) = 10
netaddr_family (other n) = n + 11

-- The port's bytes, `none` for the null pointer of a family without ports.
unfoldable pub netaddr_port : SockAddr → Option Bytes
netaddr_port (inet port addr) = some port
netaddr_port (inet6 port addr scope) = some port
netaddr_port _ = none

abbrev mapped_prefix : Bytes
mapped_prefix = 0 ∷ 0 ∷ 0 ∷ 0 ∷ 0 ∷ 0 ∷ 0 ∷ 0 ∷ 0 ∷ 0 ∷ 255 ∷ 255 ∷ []

-- `IN6_IS_ADDR_V4MAPPED`
unfoldable pub is_v4_mapped : Bytes → Bool
is_v4_mapped a = equal (take 12 a) mapped_prefix

-- The address's bytes; an IPv4-mapped IPv6 address gives its last four.
unfoldable pub netaddr_address : SockAddr → Option Bytes
unfolding is_v4_mapped
netaddr_address (unix path) = some path
netaddr_address (inet port addr) = some addr
netaddr_address (inet6 port addr scope) = some (if is_v4_mapped addr then drop 12 addr else addr)
netaddr_address _ = none

-- A pointer that may be null, with its length, as the bytes it shows.
abbrev pub part : Option Bytes → Bytes
part none = []
part (some b) = b

-- The switch of `ConvertAddr`, with the length that `NetaddrAddress` set; `none` for -1.
unfoldable pub convert_family : SockAddr → ℕ → Option ℕ
convert_family unspec len = some family_local
convert_family (unix path) len = some family_local
convert_family (inet port addr) len = some family_internet
convert_family (inet6 port addr scope) len =
    some (if len == 4 then family_internet else family_internet6)
convert_family (other n) len = none

-- The X protocol family and the address's bytes.
unfoldable pub convert_addr : SockAddr → Option ℕ × Bytes
unfolding netaddr_address convert_family
convert_addr sa = let addr = part (netaddr_address sa) in (convert_family sa (length addr), addr)

-- Early returns in the order of the source: lengths, families, ports, addresses.
unfoldable pub address_equal : Netaddr → Netaddr → Bool
unfolding netaddr_port netaddr_address
address_equal a1 a2 =
    if not (a1.len == a2.len)
    then false
    else if not (netaddr_family a1.sa == netaddr_family a2.sa)
    then false
    else if not (equal (part (netaddr_port a1.sa)) (part (netaddr_port a2.sa)))
    then false
    else equal (part (netaddr_address a1.sa)) (part (netaddr_address a2.sa))
