-- ===== src/Choose.antt =====
-- xdm/choose.c: the clients that were sent a chooser, what they chose, and the chooser's arguments.
-- The lists are those of the C file, first entry first; `memory` tells whether a copy is made.
pub mod Clients
pub mod Hex
use xdm.Base.{
  ℕ, zero, suc, ◌+◌, ◌-◌, ◌*◌, ◌/◌, ◌%◌, Bool, true, false, not, ◌&&◌, List, [], ◌∷◌, ◌++◌, ◌==◌,
  ltb, if◌then◌else◌, Option, none, some, Bytes, codes, equal, length, any, decimal,
}

-- `HexChars[n]`
abbrev pub hex_char : ℕ → ℕ
hex_char n = if ltb n 10 then b'0' + n else b'a' + (n - 10)

abbrev pub hex : Bytes → Bytes
hex [] = []
hex (b ∷ bs) = hex_char ((b / 16) % 16) ∷ hex_char (b % 16) ∷ hex bs

-- What is written in the buffer in front of the NUL; none if the buffer is too short.
unfoldable pub format_bytes : Bytes → ℕ → Option Bytes
format_bytes bytes buflen = if ltb buflen (length bytes * 2 + 1) then none else some (hex bytes)

unfoldable pub array8_to_dotted_decimal : Bytes → ℕ → Option Bytes
array8_to_dotted_decimal (a ∷ b ∷ c ∷ d ∷ []) buflen =
    let out = decimal a ++ b'.' ∷ decimal b ++ b'.' ∷ decimal c ++ b'.' ∷ decimal d in
    if ltb (length out) buflen then some out else none
array8_to_dotted_decimal _ buflen = none

-- `IndirectUsersRec`
abbrev pub Client : Type 0
Client = Bytes × ℕ

abbrev pub is_client : Bytes → ℕ → Client → Bool
is_client address t c = equal address c.0 && t == c.1

unfoldable pub is_indirect_client : Bytes → ℕ → List Client → Bool
is_indirect_client address t users = any (is_client address t) users

-- The new entry, if there is memory for it.
abbrev pub add_user : Bool → Client → List Client → Bool × List Client
add_user true c users = (true, c ∷ users)
add_user false c users = (false, users)

unfoldable pub remember_indirect_client : Bool → Bytes → ℕ → List Client → Bool × List Client
remember_indirect_client memory address t users =
    if any (is_client address t) users then (true, users) else add_user memory (address, t) users

unfoldable pub forget_indirect_client : Bytes → ℕ → List Client → List Client
forget_indirect_client address t [] = []
forget_indirect_client address t (c ∷ users) =
    let rest = forget_indirect_client address t users in
    if is_client address t c then users else c ∷ rest

-- `ChoiceRec`
pub record Choice : Type 0 where
  pub client : Bytes
  pub connection_type : ℕ
  pub choice : Bytes
  pub time : ℕ

abbrev pub is_choice_of : Bytes → ℕ → Choice → Bool
is_choice_of address t c = equal address c.client && t == c.connection_type

-- `now - c->time > choiceTimeout`
abbrev pub is_timed_out : ℕ → ℕ → Choice → Bool
is_timed_out now timeout c = ltb (c.time + timeout) now

-- The walk drops what is timed out up to the client's choice, where it stops.
unfoldable pub indirect_choice : ℕ → ℕ → Bytes → ℕ → List Choice → Option Bytes × List Choice
indirect_choice now timeout address t [] = (none, [])
indirect_choice now timeout address t (c ∷ choices) =
    let (found, rest) = indirect_choice now timeout address t choices in
    if is_timed_out now timeout c
    then (found, rest)
    else if is_choice_of address t c
    then (some c.choice, c ∷ choices)
    else (found, c ∷ rest)

abbrev pub replace : ℕ → Bytes → ℕ → Bytes → List Choice → List Choice
replace now address t choice [] = []
replace now address t choice (c ∷ choices) =
    if is_choice_of address t c
    then record c { choice = choice; time = now } ∷ choices
    else c ∷ replace now address t choice choices

-- All allocations succeed.
unfoldable pub register_indirect_choice : ℕ → Bytes → ℕ → Bytes → List Choice → List Choice
register_indirect_choice now address t choice choices =
    if any (is_choice_of address t) choices
    then replace now address t choice choices
    else record { client = address; connection_type = t; choice = choice; time = now } ∷ choices
