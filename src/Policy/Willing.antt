-- ===== src/Policy/Willing.antt =====
-- xdm/policy.c: Willing, the manager's answer to a query and its text. All allocations succeed.
use xdm.Base.{ℕ, Bool, List, [], ◌∷◌, ◌++◌, if◌then◌else◌, Option, none, some, Bytes, codes, take}
use xdm.Base.Result.{Result, ok, ◌>>=◌}
use xdm.Wire.{Opcode}
use xdm.Access.Database.{DisplayEntry, acceptable_display_address}

-- The resource `willing` and, unless it is empty, the line that the program printed, if any: at most
-- 255 bytes with the newline.
pub record WillingProgram : Type 0 where
  pub command : Bytes
  pub line : Option Bytes

-- What the access file and the network say: `*accessFile`, the entries, NetworkAddressToHostname, and
-- the addresses of the interfaces.
pub record Site : Type 0 where
  pub has_access_file : Bool
  pub database : List DisplayEntry
  pub client_name : Bytes → ℕ → Bytes
  pub interfaces : List Bytes
  pub hostname : Bytes
  pub willing : WillingProgram

-- The newline, or whatever stands last, is chopped off.
abbrev pub chop : Bytes → Bytes
chop [] = []
chop (c ∷ []) = []
chop (c ∷ d ∷ s) = c ∷ chop (d ∷ s)

abbrev pub failed_command : Bytes → Bytes
failed_command command = take 255 (codes "Willing, but " ++ (command ++ codes " failed"))

abbrev pub willing_text : WillingProgram → Bytes
willing_text p = elim p.command [
  | [] ↦ codes "Willing to manage"
  | c ∷ cs ↦ elim p.line [
    | none ↦ failed_command p.command
    | some line ↦ elim line [ [] ↦ failed_command p.command | d ∷ ds ↦ chop (d ∷ ds) ]
  ]
]

unfoldable pub willing : Site → Bytes → ℕ → Opcode → Result (Bool × Bytes)
willing s client t type =
    acceptable_display_address s.has_access_file s.database (s.client_name client t) client t type
    >>= λ yes_it_is. ok (
      yes_it_is,
      if yes_it_is then willing_text s.willing else codes "Display not authorized to connect",
    )
