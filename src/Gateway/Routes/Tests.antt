-- ===== src/Gateway/Routes/Tests.antt =====
-- The routes, with a router that is a table.
use nexus_scout.Base.{
  inr, sym, inl, Bool-cases, Bool, true, false, [], ◌∷◌, Option, none, some, ◌≡◌, refl, ◌∙◌, ap,
  arith, all, Bytes, bytes_eq, if◌then◌else◌, codes,
}
use nexus_scout.Gateway.Limits.{standard_http_limits}
use nexus_scout.Gateway.Routes.Guarded.{IsGuarded, public, endpoint-IsGuarded, router_at}
use nexus_scout.Gateway.Routes.{
  Method, get, post, head, Handler, Endpoint, MethodRouter, under, or_else, at_path, Axum,
  query_handler, request_body_limit, admission, timeout, trace, catch_panic, propagate_request_id,
  set_request_id, routers, public_router, query_router,
}

-- A router as what it does with a request.
abbrev Table : Type 0
Table = Method → Bytes → Option Endpoint

-- `get` answers `HEAD` too.
abbrev takes : Method → Method → Bool
takes get get = true
takes get head = true
takes post post = true
takes _ _ = false

abbrev method_of : MethodRouter → Method → Option Handler
method_of [] m = none
method_of ((given, h) ∷ ms) m = if takes given m then some h else method_of ms m

method_of-all :
    (p : Handler → Bool) (ms : MethodRouter) (m : Method) (h : Handler)
    → all (λ (e : Method × Handler). p e.1) ms ≡ true
    → method_of ms m ≡ some h
    → p h ≡ true
method_of-all p [] m h e found = absurd (ground arith)
method_of-all p ((given, k) ∷ ms) m h e found = elim (Bool-cases (takes given m)) [
  | inl taken ↦ let same : k ≡ h = ground arith in ap p (sym same) ∙ ground arith
  | inr passed ↦ method_of-all p ms m h (ground arith) (ground arith)
]

table : Axum Table
table = record {
  new = λ m path. none;
  route = λ p ms r m path. or_else (at_path p path (method_of ms m)) (r m path);
  merge = λ a b m path. or_else (b m path) (a m path);
  layer = λ l r m path. under l (r m path);
  method_handler = method_of;
  endpoint = λ r m path. r m path;
  endpoint-new = λ m path. refl;
  endpoint-route = λ p ms r m path. refl;
  endpoint-merge = λ a b m path. refl;
  endpoint-layer = λ l r m path. refl;
  method_handler-all = method_of-all;
}

-- What a POST to `/v1/query` comes to.
abbrev queried : Endpoint
queried = (
  query_handler,
  set_request_id
      ∷ propagate_request_id
      ∷ catch_panic
      ∷ trace
      ∷ timeout 504 30000
      ∷ request_body_limit 65536
      ∷ admission
      ∷ [],
)

query_routed : router_at table standard_http_limits public post (codes "/v1/query") ≡ some queried
unfolding table routers public_router query_router bytes_eq
query_routed = refl

endpoint-IsGuarded_example : IsGuarded standard_http_limits public queried
unfolding table
endpoint-IsGuarded_example =
    endpoint-IsGuarded table standard_http_limits public post (codes "/v1/query") queried
      query_routed

-- The probes are not on the public listener.
health_hidden : router_at table standard_http_limits public get (codes "/health") ≡ none
unfolding table routers public_router query_router bytes_eq
health_hidden = refl
