-- ===== src/Xdmauth.antt =====
-- xdm/xdmauth.c: keys and authorizations for XDM-AUTHORIZATION-1. The lines of the keys file are given;
-- GenerateAuthData and the ciphers of libXdmcp are arguments. All allocations succeed.
pub mod Keys
pub mod Answer
use xdm.Base.{
  c_string, ℕ, ◌+◌, ◌-◌, ◌*◌, Bool, true, false, not, ◌&&◌, ◌||◌, List, [], ◌∷◌, ◌++◌, ◌==◌, leb,
  if◌then◌else◌, Option, none, some, Bytes, codes, equal, begins, isspace, length, take, drop,
}
use xdm.Base.Result.{Result, ok, fault, out_of_bounds}
use xdm.Display.{Xauth}

-- `atox`; none for -1.
abbrev pub atox : ℕ → Option ℕ
atox c =
    if leb b'0' c && leb c b'9'
    then some (c - b'0')
    else if leb b'a' c && leb c b'f'
    then some (c - b'a' + 10)
    else if leb b'A' c && leb c b'F'
    then some (c - b'A' + 10)
    else none

abbrev pub join_digits : Option ℕ → Option ℕ → Option Bytes → Option Bytes
join_digits (some top) (some bottom) (some rest) = some ((top * 16 + bottom) ∷ rest)
join_digits _ _ _ = none

-- HexToBinary behind its "0x"; what stands in the buffer in front of the NUL that it writes. An odd
-- digit, as any other character, is an error.
unfoldable pub hex_to_binary : Bytes → Option Bytes
hex_to_binary [] = some []
hex_to_binary (c ∷ []) = none
hex_to_binary (c ∷ d ∷ rest) = join_digits (atox c) (atox d) (hex_to_binary rest)

-- "%s": behind white space, up to white space.
abbrev pub skip_white : Bytes → Bytes
skip_white [] = []
skip_white (c ∷ cs) = if isspace c then skip_white cs else c ∷ cs

abbrev pub word_of : Bytes → Bytes
word_of [] = []
word_of (c ∷ cs) = if isspace c then [] else c ∷ word_of cs

abbrev pub behind_word : Bytes → Bytes
behind_word [] = []
behind_word (c ∷ cs) = if isspace c then c ∷ cs else behind_word cs

abbrev pub both_words : Bytes → Bytes → Option (Bytes × Bytes)
both_words (c ∷ cs) (d ∷ ds) = some (c ∷ cs, d ∷ ds)
both_words _ _ = none

-- `sscanf (line, "%s %s", id, key)`, none unless both are there.
unfoldable pub scan_line : Bytes → Option (Bytes × Bytes)
scan_line line =
    let first = skip_white line in
    both_words (word_of first) (word_of (skip_white (behind_word first)))

abbrev pub is_comment : Bytes → Bool
is_comment [] = false
is_comment (c ∷ cs) = c == b'#'

abbrev pub is_hex : Bytes → Bool
is_hex key = begins key (codes "0x") || begins key (codes "0X")

-- The first seven bytes of the key, NULs where it is shorter, behind a NUL.
abbrev pub key_of_string : Bytes → Bytes
key_of_string s = 0 ∷ take 7 (s ++ (0 ∷ 0 ∷ 0 ∷ 0 ∷ 0 ∷ 0 ∷ 0 ∷ []))

abbrev pub decoded_key : Option Bytes → Option Bytes
decoded_key none = none
decoded_key (some bytes) = some (key_of_string (c_string bytes))

-- The `XdmAuthKeyRec` of an entry; none for a hexadecimal number that cannot be read.
unfoldable pub key_of : Bytes → Option Bytes
key_of key =
    if is_hex key then decoded_key (hex_to_binary (drop 2 key)) else some (key_of_string key)

abbrev pub is_entry_of : Bytes → Option (Bytes × Bytes) → Bool
is_entry_of id none = false
is_entry_of id (some (name, key)) = equal name id

abbrev pub key_part : Option (Bytes × Bytes) → Option Bytes
key_part none = none
key_part (some (name, key)) = key_of key

-- The first entry for the display decides, also if its key cannot be read.
unfoldable pub xdm_get_key : List Bytes → Bytes → Option Bytes
xdm_get_key [] id = none
xdm_get_key (line ∷ lines) id =
    let rest = xdm_get_key lines id in
    let entry = if is_comment line then none else scan_line line in
    if is_entry_of id entry then key_part entry else rest

-- GenerateAuthData for a number of bytes; XdmcpWrap and XdmcpUnwrap of 8 bytes with a key; and
-- XdmcpIncrementKey.
pub record Ciphers : Type 0 where
  pub generate : ℕ → Option Bytes
  pub wrap : Bytes → Bytes → Bytes
  pub unwrap : Bytes → Bytes → Bytes
  pub increment : Bytes → Bytes

-- `data[data_length - 8] = '\0'`
abbrev pub clear_first : ℕ → Bytes → Bytes
clear_first n bytes = take (n - 8) bytes ++ 0 ∷ drop (n - 8 + 1) bytes

abbrev pub new_auth : Bytes → ℕ → Option Bytes → Option Xauth
new_auth name n none = none
new_auth name n (some bytes) = some (record { name = name; data_bytes = clear_first n bytes })

unfoldable pub xdm_get_auth_helper : Ciphers → Bytes → Bool → Option Xauth
xdm_get_auth_helper c name include_rho =
    let n = if include_rho then 16 else 8 in new_auth name n (c.generate n)

unfoldable pub xdm_get_auth : Ciphers → Bytes → Option Xauth
xdm_get_auth c name = xdm_get_auth_helper c name true

-- What XdmcpAuth keeps in `struct protoDisplay`.
pub record AuthState : Type 0 where
  pub key : Bytes
  pub authentication_data : Bytes
  pub file_authorization : Option Xauth
  pub xdmcp_authorization : Option Xauth

abbrev pub has_both : AuthState → Bool
has_both p = elim p.file_authorization [
  | none ↦ false
  | some f ↦ elim p.xdmcp_authorization [ none ↦ false | some x ↦ true ]
]

abbrev pub with_auths : Ciphers → AuthState → Xauth → AuthState
with_auths c p x = record p {
  file_authorization =
      some (record {
        name = x.name;
        data_bytes = take 8 p.authentication_data ++ take 8 x.data_bytes;
      });
  xdmcp_authorization = some (record { name = x.name; data_bytes = c.wrap x.data_bytes p.key });
}

-- Eight bytes of the authentication data are read, also where there are none.
abbrev pub set_auths : Ciphers → AuthState → Option Xauth → Result AuthState
set_auths c p none = ok p
set_auths c p (some x) =
    if leb 8 (length p.authentication_data) then ok (with_auths c p x) else fault out_of_bounds

unfoldable pub xdm_get_xdmcp_auth : Ciphers → Bytes → AuthState → Result AuthState
xdm_get_xdmcp_auth c name p =
    let set = set_auths c p (xdm_get_auth_helper c name false) in if has_both p then ok p else set

abbrev pub check_with_key : Ciphers → Bytes → AuthState → Option Bytes → Option Bytes × AuthState
check_with_key c sent p none = (none, p)
check_with_key c sent p (some key) =
    let plain = c.unwrap sent key in
    if length sent == 8
    then (
      some (c.wrap (c.increment plain) key),
      record p { key = key; authentication_data = plain },
    )
    else (none, record p { key = key })

-- The data of the answer, none for a failure, with what is kept.
unfoldable pub xdm_check_authentication :
    Ciphers → List Bytes → Bytes → Bytes → AuthState → Option Bytes × AuthState
xdm_check_authentication c lines id sent p = check_with_key c sent p (xdm_get_key lines id)
