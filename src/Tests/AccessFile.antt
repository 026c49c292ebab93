-- ===== src/Tests/AccessFile.antt =====
-- xdm/access.c on a small access file.
use xdm.Base.{true, false, List, [], ◌∷◌, none, some, codes, equal, if◌then◌else◌, ◌≡◌, refl, arith}
use xdm.Base.Result.{ok}
use xdm.Netaddr.{inet}
use xdm.Access.Words.{scan_word, read_word}
use xdm.Access.Database.{
  host_alias, host_chooser, host_address, DisplayEntry, display_pattern, display_address,
  read_hosts,
}
use xdm.Access.Read.{
  Resolver, host_entry_of, host_loop, read_host_entry, hosts_loop, display_kind_of, display_loop,
  read_display_entry, database_loop, read_access_database,
}
use xdm.Access.Read.Ends.{read_access_database-returns}
use xdm.Access.Read.RoundTrip.{Line, IsLine, texts, meanings, read_access_database-texts}

-- Only `here` has an address.
abbrev one_host : Resolver
one_host name =
    if equal name (codes "here") then some (inet (0 ∷ 0 ∷ []) (10 ∷ 0 ∷ 0 ∷ 1 ∷ [])) else none

abbrev chooser_line : Line one_host
chooser_line = record {
  word = codes "!*.org";
  kind = display_pattern (codes "*.org");
  negated = true;
  hosts = (codes "CHOOSER", host_chooser) ∷ (codes "%all", host_alias (codes "%all")) ∷ [];
}

abbrev host_line : Line one_host
host_line = record {
  word = codes "here";
  kind = display_address (10 ∷ 0 ∷ 0 ∷ 1 ∷ []) 0;
  negated = false;
  hosts = (codes "here/2", host_address (10 ∷ 0 ∷ 0 ∷ 1 ∷ [])) ∷ [];
}

chooser_line-IsLine : IsLine one_host chooser_line
unfolding host_entry_of display_kind_of equal
chooser_line-IsLine = record {
  spelled = (refl, (refl, (refl, (refl, (refl, (refl, (refl, tt)))))), omega arith);
  means = refl;
  all_hosts = (
    ((refl, (refl, (refl, (refl, (refl, (refl, (refl, (refl, tt))))))), omega arith), refl),
    (((refl, (refl, (refl, (refl, (refl, tt)))), omega arith), refl), tt),
  );
}

host_line-IsLine : IsLine one_host host_line
unfolding host_entry_of display_kind_of equal
host_line-IsLine = record {
  spelled = (refl, (refl, (refl, (refl, (refl, tt)))), omega arith);
  means = refl;
  all_hosts = (((refl, (refl, (refl, (refl, (refl, (refl, (refl, tt)))))), omega arith), refl), tt);
}

read_access_database-texts_example :
    read_access_database one_host (texts one_host (chooser_line ∷ host_line ∷ []))
    ≡ ok (meanings one_host (chooser_line ∷ host_line ∷ []))
read_access_database-texts_example =
    read_access_database-texts one_host (chooser_line ∷ host_line ∷ [])
      (chooser_line-IsLine, (host_line-IsLine, tt))

read_access_database-returns_example :
    (ds : List DisplayEntry) × (read_access_database one_host (codes "gone here # no hosts\n*")
      ≡ ok ds)
read_access_database-returns_example =
    read_access_database-returns one_host (codes "gone here # no hosts\n*")

-- The display `gone` is not found, so that its host is taken for a display.
host_as_display :
    read_access_database one_host (codes "gone here\n")
    ≡ ok (read_hosts (display_address (10 ∷ 0 ∷ 0 ∷ 1 ∷ []) 0) false [] ∷ [])
unfolding read_access_database database_loop read_display_entry display_loop hosts_loop
    read_host_entry host_loop read_word scan_word host_entry_of display_kind_of equal
host_as_display = refl
