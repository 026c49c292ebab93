-- ===== src/Tests/Authority.antt =====
-- xdm/auth.c and xdm/xdmauth.c: the file of a user, and the key of a display.
use xdm.Base.{
  c_string, inl, inr, ◌≢◌, ◌+◌, ◌%◌, true, List, [], ◌∷◌, ◌++◌, none, some, Bytes, codes, equal,
  begins, length, ◌≡◌, refl, ◌∙◌, arith,
}
use xdm.Base.Result.{Result, ok, fault, out_of_bounds}
use xdm.Netaddr.{inet, convert_addr, convert_family, netaddr_address}
use xdm.Choose.{hex}
use xdm.Auth.{
  Entry, Owner, first_cookie, other_auths, hide_kerberos, local_places, places, set_auth_number,
  write_places, write_display_auth, write_each, copy_old, set_user_authorization,
  remove_user_authorization,
}
use xdm.Auth.Written.{entries_of, kept}
use xdm.Auth.Rewrite.{set_user_authorization-kept, remove_user_authorization-set_user_authorization}
use xdm.Xdmauth.{
  Ciphers, AuthState, key_of_string, key_of, scan_line, hex_to_binary, xdm_get_key,
  xdm_check_authentication, xdm_get_auth_helper, xdm_get_xdmcp_auth,
}
use xdm.Xdmauth.Keys.{key_line, xdm_get_key-hex}
use xdm.Xdmauth.Answer.{AreInverse, session_key, xdm_check_authentication-xdm_get_xdmcp_auth}

abbrev console : Owner
console = record {
  is_local = true;
  display_name = codes ":0.0";
  peer = none;
  interfaces =
      inet (0 ∷ 0 ∷ []) (127 ∷ 0 ∷ 0 ∷ 1 ∷ []) ∷ inet (0 ∷ 0 ∷ []) (10 ∷ 0 ∷ 0 ∷ 1 ∷ []) ∷ [];
  hostname = codes "here";
}

abbrev auth_of : Bytes → Entry
auth_of name = record {
  family = 65535;
  address = [];
  number = [];
  name = name;
  data_bytes = 1 ∷ 2 ∷ [];
}

abbrev two_auths : List Entry
two_auths = auth_of (codes "XDM-AUTHORIZATION-1") ∷ auth_of (codes "MIT-MAGIC-COOKIE-1") ∷ []

-- An entry of another host, and an older one of the console.
abbrev old_file : List Entry
old_file =
    record {
      family = 0;
      address = 10 ∷ 0 ∷ 0 ∷ 7 ∷ [];
      number = codes "0";
      name = codes "MIT-MAGIC-COOKIE-1";
      data_bytes = 9 ∷ [];
    }
    ∷ record {
      family = 0;
      address = 10 ∷ 0 ∷ 0 ∷ 1 ∷ [];
      number = codes "0";
      name = codes "MIT-MAGIC-COOKIE-1";
      data_bytes = 9 ∷ [];
    }
    ∷ []

abbrev file_after : Result (List Entry) → List Entry
file_after (ok es) = es
file_after (fault f) = []

abbrev new_file : List Entry
new_file = file_after (set_user_authorization console two_auths old_file)

was_set : set_user_authorization console two_auths old_file ≡ ok new_file
unfolding set_user_authorization write_each write_display_auth places local_places convert_addr
    convert_family netaddr_address set_auth_number write_places copy_old equal
was_set = refl

-- Two entries for each authorization, and that of the other host.
five_entries : length new_file ≡ 5
unfolding set_user_authorization write_each write_display_auth places local_places convert_addr
    convert_family netaddr_address set_auth_number write_places copy_old equal
five_entries = refl

set_user_authorization-kept_example :
    (a : List Entry) × (b : List Entry) × (entries_of console (first_cookie two_auths) ≡ ok a)
    × (entries_of console (hide_kerberos (other_auths two_auths)) ≡ ok b)
    × (new_file ≡ (a ++ b) ++ kept (a ++ b) old_file)
set_user_authorization-kept_example =
    set_user_authorization-kept console two_auths old_file new_file was_set

remove_user_authorization-set_user_authorization_example :
    (own : List Entry) × (entries_of console two_auths ≡ ok own)
    × (remove_user_authorization console two_auths new_file ≡ ok (kept own old_file))
    × (remove_user_authorization console two_auths old_file ≡ ok (kept own old_file))
remove_user_authorization-set_user_authorization_example =
    remove_user_authorization-set_user_authorization console two_auths old_file new_file was_set

id_ne : codes "id-8" ≢ codes "id-7"
id_ne e = ground arith

xdm_get_key-hex_example :
    xdm_get_key
      (codes "# id-7 0x01\n"
        ∷ codes "id-8 0x02\n"
        ∷ codes "\n"
        ∷ key_line (codes "id-7") (codes "0x" ++ hex (18 ∷ 0 ∷ 52 ∷ []))
        ∷ [])
      (codes "id-7")
    ≡ some (key_of_string (c_string (18 ∷ 0 ∷ 52 ∷ [])))
unfolding scan_line
xdm_get_key-hex_example =
    xdm_get_key-hex (codes "# id-7 0x01\n" ∷ codes "id-8 0x02\n" ∷ codes "\n" ∷ []) b'i'
      (codes "d-7") (18 ∷ 0 ∷ 52 ∷ []) []
      (inl refl, (inr (inr (codes "id-8", codes "0x02", refl, id_ne)), (inr (inl refl), tt)))
      (refl, (refl, (refl, (refl, tt)))) refl (omega arith, (omega arith, (omega arith, tt)))

-- Of a key with a zero byte nothing behind it is used.
cut_key : key_of (codes "0x12003456") ≡ some (0 ∷ 18 ∷ 0 ∷ 0 ∷ 0 ∷ 0 ∷ 0 ∷ 0 ∷ [])
unfolding key_of hex_to_binary begins
cut_key = refl

-- A cipher that swaps the first two bytes.
abbrev swap : Bytes → Bytes
swap (a ∷ b ∷ rest) = b ∷ a ∷ rest
swap other = other

abbrev bump : Bytes → Bytes
bump [] = []
bump (a ∷ rest) = ((a + 1) % 256) ∷ rest

swap-swap : (x : Bytes) → swap (swap x) ≡ x
swap-swap [] = refl
swap-swap (a ∷ []) = refl
swap-swap (a ∷ b ∷ rest) = refl

length-swap : (x : Bytes) → length (swap x) ≡ length x
length-swap [] = refl
length-swap (a ∷ []) = refl
length-swap (a ∷ b ∷ rest) = refl

length-bump : (x : Bytes) → length (bump x) ≡ length x
length-bump [] = refl
length-bump (a ∷ rest) = refl

abbrev swapping : Ciphers
swapping = record {
  generate = λ n. some (7 ∷ 6 ∷ 5 ∷ 4 ∷ 3 ∷ 2 ∷ 1 ∷ 9 ∷ []);
  wrap = λ x key. swap x;
  unwrap = λ x key. swap x;
  increment = bump;
}

swapping-AreInverse : AreInverse swapping
swapping-AreInverse = record {
  unwrap_wrap = λ x key e. swap-swap x;
  wrapped = λ x key e. length-swap x ∙ e;
  incremented = λ x e. length-bump x ∙ e;
}

abbrev keyless : AuthState
keyless = record {
  key = [];
  authentication_data = [];
  file_authorization = none;
  xdmcp_authorization = none;
}

abbrev nonce : Bytes
nonce = 1 ∷ 2 ∷ 3 ∷ 4 ∷ 5 ∷ 6 ∷ 7 ∷ 8 ∷ []

abbrev random : Bytes
random = 7 ∷ 6 ∷ 5 ∷ 4 ∷ 3 ∷ 2 ∷ 1 ∷ 9 ∷ []

abbrev key_file : List Bytes
key_file = codes "# keys" ∷ codes "id-7 secret\n" ∷ []

-- Without XDM's own authentication there is no data to copy.
no_nonce : xdm_get_xdmcp_auth swapping (codes "XDM-AUTHORIZATION-1") keyless ≡ fault out_of_bounds
unfolding xdm_get_xdmcp_auth xdm_get_auth_helper
no_nonce = refl

xdm_check_authentication-xdm_get_xdmcp_auth_example :
    (answer : Bytes) × (q : AuthState) × (xdm_check_authentication swapping key_file
        (codes "id-7")
        (swap nonce)
        keyless
      ≡ (some answer, q))
    × (swap answer ≡ bump nonce)
    × ((sent : Bytes) × (p' : AuthState) × (xdm_get_xdmcp_auth swapping
            (codes "XDM-AUTHORIZATION-1")
            q
          ≡ ok p')
        × (p'.xdmcp_authorization
            ≡ some (record { name = codes "XDM-AUTHORIZATION-1"; data_bytes = sent }))
        × (swap sent ≡ session_key random)
        × (p'.file_authorization
            ≡ some (record {
              name = codes "XDM-AUTHORIZATION-1";
              data_bytes = nonce ++ session_key random;
            })))
unfolding xdm_get_key key_of scan_line equal begins
xdm_check_authentication-xdm_get_xdmcp_auth_example =
    xdm_check_authentication-xdm_get_xdmcp_auth swapping key_file (codes "id-7") nonce
      (key_of_string (codes "secret")) (codes "XDM-AUTHORIZATION-1") random keyless
      swapping-AreInverse refl refl refl refl refl
