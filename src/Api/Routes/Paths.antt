-- ===== src/Api/Routes/Paths.antt =====
-- The paths of the routes, and the handler that a request comes to.
use sentinelstream.Prelude.{
  ◌≡◌, ◌≢◌, refl, ap, ◌∙◌, true, false, some, List, [], ◌∷◌, String, str_eq, str_eq_iff, arith,
}
use sentinelstream.Api.{Server}
use sentinelstream.Api.Routes.{
  Request, Handler, list_sensors, get_sensor, health_streams, metrics_summary, word, wildcard,
  matches, handle, route, routes, cors, is_read,
}

-- The paths that a handler is for, by what the wildcard stands for.
abbrev pub Fits : Handler → String → List String → Type 0
Fits list_sensors id path = path ≡ "api" ∷ "v1" ∷ "sensors" ∷ []
Fits get_sensor id path = (path ≡ "api" ∷ "v1" ∷ "sensors" ∷ id ∷ []) × (id ≢ "")
Fits health_streams id path = path ≡ "api" ∷ "v1" ∷ "health" ∷ "streams" ∷ []
Fits metrics_summary id path = path ≡ "api" ∷ "v1" ∷ "metrics" ∷ "summary" ∷ []

pub matches_sensors :
    (path : List String) (id : String)
    → matches (word "api" ∷ word "v1" ∷ word "sensors" ∷ []) path ≡ some id
    → path ≡ "api" ∷ "v1" ∷ "sensors" ∷ []
unfolding matches
matches_sensors [] id h = cc
matches_sensors (a ∷ []) id h = ground arith
matches_sensors (a ∷ b ∷ []) id h = ground arith
matches_sensors (a ∷ b ∷ c ∷ []) id h =
    ground (arith, str_eq_iff "api" a, str_eq_iff "v1" b, str_eq_iff "sensors" c)
matches_sensors (a ∷ b ∷ c ∷ d ∷ path) id h = ground arith

pub matches_sensor :
    (path : List String) (id : String)
    → matches (word "api" ∷ word "v1" ∷ word "sensors" ∷ wildcard ∷ []) path ≡ some id
    → (path ≡ "api" ∷ "v1" ∷ "sensors" ∷ id ∷ []) × (id ≢ "")
unfolding matches
matches_sensor [] id h = absurd (ground arith)
matches_sensor (a ∷ []) id h = absurd (ground arith)
matches_sensor (a ∷ b ∷ []) id h = absurd (ground arith)
matches_sensor (a ∷ b ∷ c ∷ []) id h = absurd (ground arith)
matches_sensor (a ∷ b ∷ c ∷ d ∷ []) id h =
    ground (arith, str_eq_iff "api" a, str_eq_iff "v1" b, str_eq_iff "sensors" c, str_eq_iff "" d)
matches_sensor (a ∷ b ∷ c ∷ d ∷ e ∷ path) id h = absurd (ground arith)

pub matches_two :
    (s t : String) (path : List String) (id : String)
    → matches (word "api" ∷ word "v1" ∷ word s ∷ word t ∷ []) path ≡ some id
    → path ≡ "api" ∷ "v1" ∷ s ∷ t ∷ []
unfolding matches
matches_two s t [] id h = cc
matches_two s t (a ∷ []) id h = ground arith
matches_two s t (a ∷ b ∷ []) id h = ground arith
matches_two s t (a ∷ b ∷ c ∷ []) id h = ground arith
matches_two s t (a ∷ b ∷ c ∷ d ∷ []) id h =
    ground (arith, str_eq_iff "api" a, str_eq_iff "v1" b, str_eq_iff s c, str_eq_iff t d)
matches_two s t (a ∷ b ∷ c ∷ d ∷ e ∷ path) id h = ground arith

pub read-ne-options : (method : String) → is_read method ≡ true → str_eq method "OPTIONS" ≡ false
read-ne-options method h = ground (
  arith,
  str_eq_iff method "OPTIONS",
  str_eq_iff method "GET",
  str_eq_iff method "HEAD",
  str_eq_iff "GET" "OPTIONS",
  str_eq_iff "HEAD" "OPTIONS",
)

-- What a handler is given.
abbrev pub argument : Handler → String → String
argument list_sensors id = ""
argument get_sensor id = id
argument health_streams id = ""
argument metrics_summary id = ""

-- A reading request comes to the handler of its path.
pub route-Fits :
    (s : Server) (req : Request) (h : Handler) (id : String)
    → is_read req.method ≡ true
    → Fits h id req.path
    → route cors routes req s ≡ handle cors h (argument h id) s
unfolding route matches
route-Fits s req list_sensors id m p =
    let hit = ap (matches (word "api" ∷ word "v1" ∷ word "sensors" ∷ [])) p in rw (hit, m, route)
route-Fits s req get_sensor id m (p, filled) =
    let first = ap (matches (word "api" ∷ word "v1" ∷ word "sensors" ∷ [])) p in
    let empty : str_eq "" id ≡ false = ground (arith, str_eq_iff "" id) in
    let hit : matches (word "api" ∷ word "v1" ∷ word "sensors" ∷ wildcard ∷ []) req.path ≡ some id =
      ap (matches (word "api" ∷ word "v1" ∷ word "sensors" ∷ wildcard ∷ [])) p ∙ rw empty refl in
    rw (first, hit, m, route)
route-Fits s req health_streams id m p =
    let first = ap (matches (word "api" ∷ word "v1" ∷ word "sensors" ∷ [])) p in
    let second = ap (matches (word "api" ∷ word "v1" ∷ word "sensors" ∷ wildcard ∷ [])) p in
    let hit = ap (matches (word "api" ∷ word "v1" ∷ word "health" ∷ word "streams" ∷ [])) p in
    rw (first, second, hit, m, route)
route-Fits s req metrics_summary id m p =
    let first = ap (matches (word "api" ∷ word "v1" ∷ word "sensors" ∷ [])) p in
    let second = ap (matches (word "api" ∷ word "v1" ∷ word "sensors" ∷ wildcard ∷ [])) p in
    let third = ap (matches (word "api" ∷ word "v1" ∷ word "health" ∷ word "streams" ∷ [])) p in
    let hit = ap (matches (word "api" ∷ word "v1" ∷ word "metrics" ∷ word "summary" ∷ [])) p in
    rw (first, second, third, hit, m, route)
