-- ===== src/Api/Routes/Answers.antt =====
-- Which requests are answered, and with what status.
use sentinelstream.Prelude.{
  ◌≡◌, ◌≢◌, ◌↔◌, refl, sym, subst, ◌∙◌, ◌⊎◌, inl, inr, true, Bool-cases, Option-cases, Option, none,
  some, List, [], ◌∷◌, ◌++◌, String, str_eq, arith,
}
use sentinelstream.Api.{
  Server, SensorDetail, found, not_found, handle_list_sensors, to_sensor_detail, handle_get_sensor,
  handle_health_streams, handle_metrics_summary,
}
use sentinelstream.Processor.Pool.{stats}
use sentinelstream.State.Store.{get}
use sentinelstream.State.Log.{Call, after}
use sentinelstream.Api.Listing.{find_summary, handle_get_sensor-handle_list_sensors}
use sentinelstream.Api.Routes.Paths.{
  Fits, matches_sensors, matches_sensor, matches_two, read-ne-options, argument, route-Fits,
}
use sentinelstream.Api.Routes.{
  Request, Response, Route, Handler, list_sensors, get_sensor, health_streams, metrics_summary,
  matches, handle, route, routes, cors, serve, is_read, write_sensor,
}

-- The paths of the API, and a sensor's only if it is in the list of sensors.
abbrev pub IsServed : Server → List String → Type 0
IsServed s path =
    (path ≡ "api" ∷ "v1" ∷ "sensors" ∷ [])
    ⊎ ((id : String) × (path ≡ "api" ∷ "v1" ∷ "sensors" ∷ id ∷ [])
        × (id ≢ "")
        × (find_summary id (handle_list_sensors s) ≢ none))
    ⊎ (path ≡ "api" ∷ "v1" ∷ "health" ∷ "streams" ∷ [])
    ⊎ (path ≡ "api" ∷ "v1" ∷ "metrics" ∷ "summary" ∷ [])

abbrev pub HasCors : Response → Type 0
HasCors r = (first : List (String × String)) × (r.headers ≡ first ++ cors)

-- What an answer says of the request.
abbrev IsSound : Server → Request → Option Response → Type 0
IsSound s req none = stats s.proc ≡ none
IsSound s req (some r) =
    HasCors r × (r.status ≡ 200 → (is_read req.method ≡ true) × IsServed s req.path)

some-ne-none : {A : Type 0} {a : A} → some a ≡ none → ⊥
some-ne-none h = cc h

found_listed :
    (s : Server) (log : List Call) (id : String)
    → s.store ≡ after log
    → (handle_get_sensor id s ≡ not_found id × (find_summary id (handle_list_sensors s) ≡ none))
      ⊎ ((d : SensorDetail) × (handle_get_sensor id s ≡ found d)
          × (find_summary id (handle_list_sensors s) ≢ none))
unfolding handle_get_sensor
found_listed s log id e =
    let same = handle_get_sensor-handle_list_sensors s log id e in
    elim (Option-cases (get id s.store)) [
      | inl missing ↦
          inl (rw (missing, handle_get_sensor), sym (rw (missing, handle_get_sensor) at same))
      | inr (sn, there) ↦ inr (
        to_sensor_detail sn,
        rw (there, handle_get_sensor),
        λ unlisted. some-ne-none (rw (there, handle_get_sensor) at same ∙ unlisted),
      )
    ]

panics_inside :
    (s : Server)
    → (handle_health_streams s ≡ none → stats s.proc ≡ none)
      × (handle_metrics_summary s ≡ none → stats s.proc ≡ none)
unfolding handle_health_streams handle_metrics_summary
panics_inside s = elim (Option-cases (stats s.proc)) [
  | inl e ↦ (λ _. e, λ _. e)
  | inr (ps, e) ↦ (
    λ h. absurd (some-ne-none (rw (e, handle_health_streams) at h)),
    λ h. absurd (some-ne-none (rw (e, handle_metrics_summary) at h)),
  )
]

handle-IsSound :
    (s : Server) (log : List Call) (req : Request) (h : Handler) (id : String)
    → s.store ≡ after log
    → is_read req.method ≡ true
    → Fits h id req.path
    → IsSound s req (handle cors h id s)
unfolding handle
handle-IsSound s log req list_sensors id e m p = ((_ ∷ [], refl), λ _. (m, inl p))
handle-IsSound s log req get_sensor id e m (p, filled) = elim (found_listed s log id e) [
  | inl (missing, unlisted) ↦ rw (missing, write_sensor) ((_ ∷ [], refl), λ h. absurd (omega arith))
  | inr (d, there, listed) ↦
      rw (there, write_sensor) ((_ ∷ [], refl), λ _. (m, inr (inl (id, p, filled, listed))))
]
handle-IsSound s log req health_streams id e m p = elim (Option-cases (handle_health_streams s)) [
  | inl fails ↦ rw fails ((panics_inside s).0 fails)
  | inr (r, works) ↦ rw works ((_ ∷ [], refl), λ _. (m, inr (inr (inl p))))
]
handle-IsSound s log req metrics_summary id e m p = elim (Option-cases (handle_metrics_summary s)) [
  | inl fails ↦ rw fails ((panics_inside s).1 fails)
  | inr (r, works) ↦ rw works ((_ ∷ [], refl), λ _. (m, inr (inr (inr p))))
]

-- A route that matches is for a path of its handler.
abbrev AllFit : Request → List Route → Type 0
AllFit req [] = Unit
AllFit req (r ∷ rs) =
    ((id : String) → matches r.pattern req.path ≡ some id → Fits r.handler id req.path)
    × AllFit req rs

route-IsSound :
    (s : Server) (log : List Call) (req : Request) (rs : List Route)
    → s.store ≡ after log
    → AllFit req rs
    → IsSound s req (route cors rs req s)
unfolding route
route-IsSound s log req [] e fits = ((_ ∷ [], refl), λ h. absurd (omega arith))
route-IsSound s log req (r ∷ rs) e (fits, rest) = elim (Option-cases (matches r.pattern req.path)) [
  | inl missed ↦ rw (missed, route) (route-IsSound s log req rs e rest)
  | inr (id, m) ↦ elim (Bool-cases (is_read req.method)) [
    | inl reads ↦ rw (m, reads, route) (handle-IsSound s log req r.handler id e reads (fits id m))
    | inr writes ↦ rw (m, writes, route) ((_ ∷ _ ∷ [], refl), λ h. absurd (omega arith))
  ]
]

serve-IsSound :
    (s : Server) (log : List Call) (req : Request)
    → s.store ≡ after log
    → IsSound s req (serve req s)
unfolding serve
serve-IsSound s log req e = elim (Bool-cases (str_eq req.method "OPTIONS")) [
  | inl asks ↦ rw (asks, serve) (([], refl), λ h. absurd (omega arith))
  | inr other ↦
      rw (other, serve)
        (route-IsSound s log req routes e (
          matches_sensors req.path,
          (
            matches_sensor req.path,
            (
              matches_two "health" "streams" req.path,
              (matches_two "metrics" "summary" req.path, tt),
            ),
          ),
        ))
]

-- The answer, if there is one, has the status 200.
abbrev Succeeds : Option Response → Type 0
Succeeds none = Unit
Succeeds (some r) = r.status ≡ 200

handle-Succeeds :
    (s : Server) (log : List Call) (path : List String)
    → s.store ≡ after log
    → IsServed s path
    → (h : Handler) × (id : String) × Fits h id path × Succeeds (handle cors h (argument h id) s)
unfolding handle
handle-Succeeds s log path e (inl p) = (list_sensors, "", p, refl)
handle-Succeeds s log path e (inr (inl (id, p, filled, listed))) = elim (found_listed s log id e) [
  | inl (missing, unlisted) ↦ absurd (listed unlisted)
  | inr (d, there, _) ↦ (get_sensor, id, (p, filled), rw (there, write_sensor) refl)
]
handle-Succeeds s log path e (inr (inr (inl p))) = elim (Option-cases (handle_health_streams s)) [
  | inl fails ↦ (health_streams, "", p, rw fails tt)
  | inr (r, works) ↦ (health_streams, "", p, rw works refl)
]
handle-Succeeds s log path e (inr (inr (inr p))) = elim (Option-cases (handle_metrics_summary s)) [
  | inl fails ↦ (metrics_summary, "", p, rw fails tt)
  | inr (r, works) ↦ (metrics_summary, "", p, rw works refl)
]

serve-Succeeds :
    (s : Server) (log : List Call) (req : Request)
    → s.store ≡ after log
    → is_read req.method ≡ true
    → IsServed s req.path
    → Succeeds (serve req s)
unfolding serve
serve-Succeeds s log req e m p =
    let (h, id, fits, works) = handle-Succeeds s log req.path e p in
    rw (read-ne-options req.method m, serve)
      (subst Succeeds (sym (route-Fits s req h id m fits)) works)

-- On a store that has seen any log of calls, an answer of the API lets any origin read it, and has the
-- status 200 exactly if the method is GET or HEAD and the path is that of the list of sensors, of a
-- sensor in this list, of the streams or of the metrics; and a request stays without an answer only if
-- the statistics of the processor panic.
pub serve_exact :
    (s : Server) (log : List Call) (req : Request)
    → s.store ≡ after log
    → ((r : Response)
        → serve req s ≡ some r
        → HasCors r × ((r.status ≡ 200) ↔ ((is_read req.method ≡ true) × IsServed s req.path)))
      × (serve req s ≡ none → stats s.proc ≡ none)
serve_exact s log req e = (
  λ r h.
      let (open_to_all, sound) = subst (IsSound s req) h (serve-IsSound s log req e) in
      (open_to_all, (sound, λ (m, p). subst Succeeds h (serve-Succeeds s log req e m p))),
  λ h. subst (IsSound s req) h (serve-IsSound s log req e),
)
