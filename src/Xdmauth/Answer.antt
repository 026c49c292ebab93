-- ===== src/Xdmauth/Answer.antt =====
-- What a display that has the key, and the manager, come to share.
use xdm.Base.{
  ℕ, zero, suc, arith, List, [], ◌∷◌, ◌++◌, none, some, Bytes, length, take, ◌≡◌, refl, sym, ap,
}
use xdm.Base.Result.{ok}
use xdm.Xdmauth.{
  with_auths, xdm_get_key, Ciphers, clear_first, xdm_get_auth_helper, AuthState, xdm_get_xdmcp_auth,
  xdm_check_authentication,
}

-- XdmcpUnwrap undoes XdmcpWrap with the same key on 8 bytes, and the ciphers keep the length.
pub record AreInverse (c : Ciphers) : Type 0 where
  pub unwrap_wrap : (x key : Bytes) → length x ≡ 8 → c.unwrap (c.wrap x key) key ≡ x
  pub wrapped : (x key : Bytes) → length x ≡ 8 → length (c.wrap x key) ≡ 8
  pub incremented : (x : Bytes) → length x ≡ 8 → length (c.increment x) ≡ 8

-- The session key of the bytes that GenerateAuthData gives.
abbrev pub session_key : Bytes → Bytes
session_key random = clear_first 8 random

take-all : (n : ℕ) (x : Bytes) → length x ≡ n → take n x ≡ x
take-all zero x e = sym (empty x e)
  where
    empty : (x : Bytes) → length x ≡ 0 → x ≡ []
    empty [] e = refl
    empty (a ∷ x) e = absurd (omega (arith, e))
take-all (suc n) [] e = refl
take-all (suc n) (a ∷ x) e = ap (λ l. a ∷ l) (take-all n x (omega (arith, e)))

-- The manager and a display with the same key agree: if the display sends a nonce under the key that the keys
-- file has for it, XdmCheckAuthentication answers, and the answer shows the display the incremented nonce; and then
-- XdmGetXdmcpAuth, when random bytes are to be had, sends it a session key under that key, and keeps the nonce and the session key together as
-- the authorization of the file. The ciphers are inverse to each other on 8 bytes.
pub xdm_check_authentication-xdm_get_xdmcp_auth :
    (c : Ciphers) (lines : List Bytes) (id nonce key name random : Bytes) (p : AuthState)
    → AreInverse c
    → xdm_get_key lines id ≡ some key
    → length nonce ≡ 8
    → c.generate 8 ≡ some random
    → length (session_key random) ≡ 8
    → p.file_authorization ≡ none
    → (answer : Bytes) × (q : AuthState) × (xdm_check_authentication c lines id (c.wrap nonce key) p
        ≡ (some answer, q))
      × (c.unwrap answer key ≡ c.increment nonce)
      × ((sent : Bytes) × (p' : AuthState) × (xdm_get_xdmcp_auth c name q ≡ ok p')
          × (p'.xdmcp_authorization ≡ some (record { name = name; data_bytes = sent }))
          × (c.unwrap sent key ≡ session_key random)
          × (p'.file_authorization
              ≡ some (record { name = name; data_bytes = nonce ++ session_key random })))
unfolding xdm_check_authentication xdm_get_xdmcp_auth xdm_get_auth_helper
xdm_check_authentication-xdm_get_xdmcp_auth c lines id nonce key name random p inv found n g s
      none_yet =
    let q : AuthState = record p { key = key; authentication_data = nonce } in
    let opened = inv.unwrap_wrap nonce key n in
    (
      c.wrap (c.increment nonce) key,
      q,
      rw (found, inv.wrapped nonce key n, opened) refl,
      inv.unwrap_wrap (c.increment nonce) key (inv.incremented nonce n),
      (
        c.wrap (session_key random) key,
        with_auths c q (record { name = name; data_bytes = session_key random }),
        rw (none_yet, g, n) refl,
        refl,
        inv.unwrap_wrap (session_key random) key s,
        rw (take-all 8 nonce n, take-all 8 (session_key random) s) refl,
      ),
    )
