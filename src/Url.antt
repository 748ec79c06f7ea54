-- ===== src/Url.antt =====
-- hp_url_query of src/hp_url.c: the values of the keys that are asked for, out of the parameters that
-- yuarel_parse_query, which is not in the repository, found.
pub mod Query
use libhp.Common.{ℕ, suc, ◌+◌, Bool, Option, List, [], ◌∷◌, if◌then◌else◌, Bytes, bytes_eq}

-- `struct yuarel_param`; a value that was not given is `none`.
pub record Param : Type 0 where
  pub key : Bytes
  pub val : Option Bytes

-- The inner loop: every `q` of the key gets the value; how many there are.
unfoldable pub fill : Param → List Param → List Param
fill p [] = []
fill p (q ∷ qs) = (if bytes_eq p.key q.key then record q { val = p.val } else q) ∷ fill p qs

unfoldable pub hits : Param → List Param → ℕ
hits p [] = 0
hits p (q ∷ qs) = if bytes_eq p.key q.key then suc (hits p qs) else hits p qs

-- The loops over what was found; a parameter that is repeated counts each time.
unfoldable pub url_query : List Param → List Param → ℕ → ℕ × List Param
unfolding fill hits
url_query [] qs n = (n, qs)
url_query (p ∷ ps) qs n = url_query ps (fill p qs) (n + hits p qs)
