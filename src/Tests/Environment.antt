-- ===== src/Tests/Environment.antt =====
-- xdm/util.c on a small environment.
use xdm.Base.{List, [], ◌∷◌, Option, some, Bytes, codes, ◌≡◌, ◌≢◌, refl}
use xdm.Util.{get_env, set_env}
use xdm.Util.Env.{IsName, set_env-get_env}

abbrev small_env : Option (List Bytes)
small_env = some (codes "HOME=/" ∷ codes "PATH=/bin" ∷ [])

set_env-get_env_example :
    (get_env (set_env small_env (codes "TZ") (codes "UTC")) (codes "TZ") ≡ some (codes "UTC"))
    × ((other : Bytes)
        → IsName other
        → codes "TZ" ≢ other
        → get_env (set_env small_env (codes "TZ") (codes "UTC")) other ≡ get_env small_env other)
set_env-get_env_example = set_env-get_env small_env (codes "TZ") (codes "UTC") (refl, (refl, tt))
