-- ===== src/Gateway/Routes.antt =====
-- crates/nexus-scout/src/http.rs: the routes of the public gateway and of the operational endpoints.
-- axum's `Router` is an interface, with what axum documents of it.
pub mod Guarded
mod Tests
use mathlib.Core.Option
use nexus_scout.Base.{
  ℕ, Bool, true, false, List, [], ◌∷◌, Option, none, some, ◌≡◌, all, Bytes, codes, bytes_eq,
  if◌then◌else◌,
}
use nexus_scout.Gateway.Limits.{HttpLimits}

pub data Method : Type 0 where
  get post head : Method
  other_method : Bytes → Method

-- The handlers, by the functions that they are.
pub data Handler : Type 0 where
  query_handler query_get_handler index_handler llms_handler schema_handler : Handler
  health_handler ready_handler metrics_handler : Handler

-- The layers: `RequestBodyLimitLayer` with its bytes, `admit`, `TimeoutLayer` with its status and its
-- milliseconds, and those that only trace, catch panics or name requests.
pub data Layer : Type 0 where
  request_body_limit : ℕ → Layer
  admission : Layer
  timeout : ℕ → ℕ → Layer
  trace catch_panic propagate_request_id set_request_id : Layer

-- A handler, and the layers that a request comes through to it, from the outermost.
abbrev pub Endpoint : Type 0
Endpoint = Handler × List Layer

abbrev pub MethodRouter : Type 0
MethodRouter = List (Method × Handler)

abbrev pub under : Layer → Option Endpoint → Option Endpoint
under l none = none
under l (some (h, ls)) = some (h, l ∷ ls)

-- The first of the two that is there.
abbrev pub or_else : Option Endpoint → Option Endpoint → Option Endpoint
or_else none e = e
or_else (some e) d = some e

-- A handler of the route `p`, on the path of a request.
abbrev pub at_path : Bytes → Bytes → Option Handler → Option Endpoint
at_path p path none = none
at_path p path (some h) = if bytes_eq p path then some (h, []) else none

-- What axum documents of `Router`: where a request ends up, behind each call that builds a router. A
-- method router answers only with handlers that were given to it.
pub record Axum (Router : Type 0) : Type 0 where
  pub new : Router
  pub route : Bytes → MethodRouter → Router → Router
  pub merge : Router → Router → Router
  pub layer : Layer → Router → Router
  pub method_handler : MethodRouter → Method → Option Handler
  pub endpoint : Router → Method → Bytes → Option Endpoint
  pub endpoint-new : (m : Method) (path : Bytes) → endpoint new m path ≡ none
  pub endpoint-route :
      (p : Bytes) (ms : MethodRouter) (r : Router) (m : Method) (path : Bytes)
      → endpoint (route p ms r) m path
        ≡ or_else (at_path p path (method_handler ms m)) (endpoint r m path)
  pub endpoint-merge :
      (a b : Router) (m : Method) (path : Bytes)
      → endpoint (merge a b) m path ≡ or_else (endpoint b m path) (endpoint a m path)
  pub endpoint-layer :
      (l : Layer) (r : Router) (m : Method) (path : Bytes)
      → endpoint (layer l r) m path ≡ under l (endpoint r m path)
  pub method_handler-all :
      (p : Handler → Bool) (ms : MethodRouter) (m : Method) (h : Handler)
      → all (λ (e : Method × Handler). p e.1) ms ≡ true
      → method_handler ms m ≡ some h
      → p h ≡ true

module _ {Router : Type 0} (axum : Axum Router) (limits : HttpLimits) where
  -- `query` of `public_router`.
  unfoldable pub query_router : Router
  query_router = axum.layer (request_body_limit limits.max_body_bytes) (
      axum.layer admission (
        axum.route (codes "/v1/query") ((post, query_handler) ∷ (get, query_get_handler) ∷ [])
          axum.new))

  unfoldable pub public_router : Router
  public_router = axum.layer set_request_id (
      axum.layer propagate_request_id (
        axum.layer catch_panic (
          axum.layer trace (
            axum.layer (timeout 504 limits.request_timeout) (
              axum.route (codes "/v1/schema") ((get, schema_handler) ∷ []) (
                axum.route (codes "/llms.txt") ((get, llms_handler) ∷ []) (
                  axum.route (codes "/") ((get, index_handler) ∷ [])
                    (axum.merge axum.new query_router))))))))

  unfoldable pub metrics_router : Router
  metrics_router = axum.layer catch_panic (
      axum.layer trace (
        axum.layer (timeout 504 limits.request_timeout) (
          axum.route (codes "/metrics") ((get, metrics_handler) ∷ []) (
            axum.route (codes "/ready") ((get, ready_handler) ∷ [])
              (axum.route (codes "/health") ((get, health_handler) ∷ []) axum.new)))))

  -- `routers`: the public one and the operational one.
  unfoldable pub routers : Router × Router
  routers = (public_router, metrics_router)
