-- ===== src/Tests/Routing.antt =====
-- Requests on their way through the router.
use gcosmos.Base.{
  ◌≡◌, refl, ap, ◌∙◌, inl, inr, ◌⊎◌, ◌&&◌, Bool, true, false, none, some, List, [], ◌∷◌, Option,
  Bytes, codes, arith, bytes_beq, bytes_key, bytes_beq_iff, if◌then◌else◌, Bool-cases, ok,
}
use gcosmos.Server.Http.{Response, handle_submit_tx}
use gcosmos.Server.Http.Routes.{Route, Request, new_mux, debug_routes, compat_routes, handle, serve}
use gcosmos.Server.Http.Routes.Reached.{begins_with_slash, Among, IsRouter, serve-Served}
use gcosmos.Server.Http.Statuses.{IsStatus}
use gcosmos.Tests.Backend.{node, no_json, first_json}

-- A router that takes a template for a path.
abbrev fits : Request → Route → Bool
fits req r =
    begins_with_slash r.template && (bytes_beq r.method req.method && bytes_beq r.template req.path)

find : List Route → Request → Option (Route × Bytes)
find [] req = none
find (r ∷ rs) req = if fits req r then some (r, []) else find rs req

find_lem :
    (rs : List Route) (req : Request) (r : Route) (id : Bytes)
    → find rs req ≡ some (r, id)
    → Among r rs × (fits req r ≡ true)
unfolding find
find_lem [] req r id e = cc
find_lem (q ∷ rs) req r id e = elim (Bool-cases (fits req q)) [
  | inl fit ↦
      let picked = rw fit at e in let same : r ≡ q = cc in (inl same, ap (fits req) same ∙ fit)
  | inr other ↦ let (m, f) = find_lem rs req r id (rw other at e) in (inr m, f)
]

find-IsRouter : IsRouter find
find-IsRouter = record {
  registered = λ rs req r id e. (find_lem rs req r id e).0;
  for_method = λ rs req r id e.
      (bytes_beq_iff r.method req.method).0 (ground (arith, find_lem rs req r id e));
  from_root = λ rs req r id e. ground (arith, find_lem rs req r id e);
}

abbrev not_found : Request → Response
not_found req = record { status = 404; body = [] }

abbrev submission : Request
submission = record {
  method = codes "POST";
  path = codes "/debug/submit_tx";
  body = some (codes "ab");
}

abbrev compat_request : Request
compat_request = record { method = codes "GET"; path = codes "/health"; body = some [] }

-- A CometBFT endpoint is not found.
compat_not_found :
    serve node no_json first_json find not_found [] compat_request
    ≡ ok (record { status = 404; body = [] }, [])
unfolding serve find new_mux debug_routes compat_routes
compat_not_found = refl

submission_served :
    serve node no_json first_json find not_found [] submission
    ≡ ok (record { status = 200; body = [] }, codes "ab" ∷ [])
unfolding serve find new_mux debug_routes compat_routes handle handle_submit_tx
submission_served = refl

abbrev accepted_response : Response
accepted_response = record { status = 200; body = [] }

serve-Served_example :
    ((find new_mux submission ≡ none)
      × (accepted_response ≡ not_found submission)
      × (codes "ab" ∷ [] ≡ []))
    ⊎ ((q : Route) × (id : Bytes) × (find new_mux submission ≡ some (q, id))
        × IsStatus accepted_response
        × (bytes_beq submission.method (codes "POST") ≡ false → codes "ab" ∷ [] ≡ []))
serve-Served_example =
    serve-Served node no_json first_json find not_found [] (codes "ab" ∷ []) submission
      accepted_response find-IsRouter submission_served
