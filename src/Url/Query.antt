-- ===== src/Url/Query.antt =====
-- What hp_url_query of src/hp_url.c leaves in each place: the last value of its key.
use libhp.Common.{ℕ, ◌+◌, ◌≡◌, refl, ap, ◌∙◌, List, [], ◌∷◌, if◌then◌else◌, map, bytes_eq}
use libhp.Url.{Param, fill, hits, url_query}

-- The value of the last parameter of the key, or the value that was there.
abbrev pub last_val : List Param → Param → Param
last_val [] q = q
last_val (p ∷ ps) q = last_val ps (if bytes_eq p.key q.key then record q { val = p.val } else q)

fill-map :
    (p : Param) (qs : List Param)
    → fill p qs ≡ map (λ q. if bytes_eq p.key q.key then record q { val = p.val } else q) qs
unfolding fill
fill-map p [] = refl
fill-map p (q ∷ qs) =
    ap (λ r. (if bytes_eq p.key q.key then record q { val = p.val } else q) ∷ r) (fill-map p qs)

map-map : (f g : Param → Param) (qs : List Param) → map f (map g qs) ≡ map (λ q. f (g q)) qs
map-map f g [] = refl
map-map f g (q ∷ qs) = ap (λ r. f (g q) ∷ r) (map-map f g qs)

map_same : (qs : List Param) → qs ≡ map (λ q. q) qs
map_same [] = refl
map_same (q ∷ qs) = ap (λ r. q ∷ r) (map_same qs)

-- hp_url_query leaves in each `q` the value of the last parameter of its key, or what it had; the keys stay.
pub url_query-last_val : (ps qs : List Param) (n : ℕ) → (url_query ps qs n).1 ≡ map (last_val ps) qs
unfolding url_query
url_query-last_val [] qs n = map_same qs
url_query-last_val (p ∷ ps) qs n =
    url_query-last_val ps (fill p qs) (n + hits p qs)
    ∙ ap (map (last_val ps)) (fill-map p qs)
    ∙ map-map (last_val ps) (λ q. if bytes_eq p.key q.key then record q { val = p.val } else q) qs
