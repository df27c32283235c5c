-- ===== src/Gateway/Routes/Guarded.antt =====
-- crates/nexus-scout/src/http.rs: the layers that a request comes through to each handler.
use nexus_scout.Base.{
  subst, ◌&&◌, not, Bool, true, false, List, [], ◌∷◌, Option, none, some, ◌≡◌, refl, arith, all,
  Bytes, bytes_eq, if◌then◌else◌, if_cases,
}
use nexus_scout.Gateway.Limits.{HttpLimits}
use nexus_scout.Gateway.Routes.{
  Method, Handler, query_handler, query_get_handler, index_handler, llms_handler, schema_handler,
  health_handler, ready_handler, metrics_handler, Layer, request_body_limit, admission, timeout,
  trace, catch_panic, propagate_request_id, set_request_id, Endpoint, MethodRouter, under, or_else,
  at_path, Axum, query_router, public_router, metrics_router, routers, get,
}

-- The handlers that put queries to the database, and the ones for operators.
abbrev pub is_query : Handler → Bool
is_query query_handler = true
is_query query_get_handler = true
is_query _ = false

abbrev pub is_operational : Handler → Bool
is_operational health_handler = true
is_operational ready_handler = true
is_operational metrics_handler = true
is_operational _ = false

abbrev is_page : Handler → Bool
is_page h = not (is_query h) && not (is_operational h)

-- The listeners.
pub data Port : Type 0 where
  public operational : Port

-- The layers before a handler of the public router, beyond those of all of its handlers.
abbrev pub cost_controls : HttpLimits → Handler → List Layer
cost_controls limits h =
    if is_query h then request_body_limit limits.max_body_bytes ∷ admission ∷ [] else []

-- What stands before a handler at a listener.
abbrev pub IsGuarded : HttpLimits → Port → Endpoint → Type 0
IsGuarded limits public (h, ls) =
    (is_operational h ≡ false)
    × (ls
        ≡ set_request_id
          ∷ propagate_request_id
          ∷ catch_panic
          ∷ trace
          ∷ timeout 504 limits.request_timeout
          ∷ cost_controls limits h)
IsGuarded limits operational (h, ls) =
    (is_operational h ≡ true) × (ls ≡ catch_panic ∷ trace ∷ timeout 504 limits.request_timeout ∷ [])

-- A predicate of an endpoint that is there.
abbrev Holds : (Endpoint → Type 0) → Option Endpoint → Type 0
Holds P none = Unit
Holds P (some e) = P e

Holds-under :
    (P : Endpoint → Type 0) (l : Layer) (o : Option Endpoint)
    → Holds (λ e. P (e.0, l ∷ e.1)) o
    → Holds P (under l o)
Holds-under P l none k = k
Holds-under P l (some e) k = k

Holds-or_else :
    (P : Endpoint → Type 0) (o q : Option Endpoint) → Holds P o → Holds P q → Holds P (or_else o q)
Holds-or_else P none q h k = k
Holds-or_else P (some e) q h k = h

Holds-at_path :
    (P : Endpoint → Type 0) (p path : Bytes) (o : Option Handler)
    → ((h : Handler) → o ≡ some h → P (h, []))
    → Holds P (at_path p path o)
Holds-at_path P p path none f = tt
Holds-at_path P p path (some h) f =
    if_cases (Holds P) (bytes_eq p path) _ _ (λ _. f h refl) (λ _. tt)

module _ {Router : Type 0} (axum : Axum Router) where
  -- Every endpoint of the router.
  abbrev Every : Router → (Endpoint → Type 0) → Type 0
  Every r P = (m : Method) (path : Bytes) → Holds P (axum.endpoint r m path)

  Every-new : (P : Endpoint → Type 0) → Every axum.new P
  Every-new P m path = rw (axum.endpoint-new m path) tt

  Every-route :
      (P : Endpoint → Type 0) (p : Bytes) (ms : MethodRouter) (r : Router) (q : Handler → Bool)
      → all (λ (e : Method × Handler). q e.1) ms ≡ true
      → ((h : Handler) → q h ≡ true → P (h, []))
      → Every r P
      → Every (axum.route p ms r) P
  Every-route P p ms r q given f h m path = rw (axum.endpoint-route p ms r m path) (
      Holds-or_else P _ _
        (Holds-at_path P p path (axum.method_handler ms m)
          (λ h found. f h (axum.method_handler-all q ms m h given found)))
        (h m path))

  Every-merge :
      (P : Endpoint → Type 0) (a b : Router) → Every a P → Every b P → Every (axum.merge a b) P
  Every-merge P a b h k m path =
      rw (axum.endpoint-merge a b m path) (Holds-or_else P _ _ (k m path) (h m path))

  Every-layer :
      (P : Endpoint → Type 0) (l : Layer) (r : Router)
      → Every r (λ e. P (e.0, l ∷ e.1))
      → Every (axum.layer l r) P
  Every-layer P l r h m path = rw (axum.endpoint-layer l r m path) (Holds-under P l _ (h m path))

  Every-query_router :
      (limits : HttpLimits) (P : Endpoint → Type 0)
      → ((h : Handler)
          → is_query h ≡ true
          → P (h, request_body_limit limits.max_body_bytes ∷ admission ∷ []))
      → Every (query_router axum limits) P
  unfolding query_router
  Every-query_router limits P f = Every-layer P _ _ (
      Every-layer (λ e. P (e.0, request_body_limit limits.max_body_bytes ∷ e.1)) _ _
        (Every-route _ _ _ _ is_query refl f (Every-new _)))

  -- One of the pages of the public router.
  Every-page :
      (P : Endpoint → Type 0) (p : Bytes) (h : Handler) (r : Router)
      → is_page h ≡ true
      → ((h : Handler) → is_page h ≡ true → P (h, []))
      → Every r P
      → Every (axum.route p ((get, h) ∷ []) r) P
  Every-page P p h r page f below = Every-route P p _ r is_page (ground arith) f below

  query_not_operational : (h : Handler) → is_query h ≡ true → is_operational h ≡ false
  query_not_operational h e = ground arith

  Every-public_router :
      (limits : HttpLimits) → Every (public_router axum limits) (IsGuarded limits public)
  unfolding public_router
  Every-public_router limits =
      let within = λ (e : Endpoint). IsGuarded limits public (
        e.0,
        set_request_id
            ∷ propagate_request_id
            ∷ catch_panic
            ∷ trace
            ∷ timeout 504 limits.request_timeout
            ∷ e.1,
      ) in
      let page : (h : Handler) → is_page h ≡ true → within (h, []) =
        λ h e. (ground arith, let plain : is_query h ≡ false = ground arith in rw plain refl) in
      let asks : (h : Handler)
          → is_query h ≡ true
          → within (h, request_body_limit limits.max_body_bytes ∷ admission ∷ []) =
        λ h e. (query_not_operational h e, rw e refl) in
      Every-layer _ _ _ (
        Every-layer _ _ _ (
          Every-layer _ _ _ (
            Every-layer _ _ _ (
              Every-layer _ _ _ (
                Every-page within _ schema_handler _ refl page (
                  Every-page within _ llms_handler _ refl page (
                    Every-page within _ index_handler _ refl page (
                      Every-merge within _ _ (Every-new within)
                        (Every-query_router limits within asks)))))))))

  Every-metrics_router :
      (limits : HttpLimits) → Every (metrics_router axum limits) (IsGuarded limits operational)
  unfolding metrics_router
  Every-metrics_router limits =
      let within = λ (e : Endpoint).
        IsGuarded limits operational
          (e.0, catch_panic ∷ trace ∷ timeout 504 limits.request_timeout ∷ e.1) in
      let probe : (h : Handler) → is_operational h ≡ true → within (h, []) = λ h e. (e, refl) in
      Every-layer _ _ _ (
        Every-layer _ _ _ (
          Every-layer _ _ _ (
            Every-route within _ _ _ is_operational refl probe (
              Every-route within _ _ _ is_operational refl probe
                (Every-route within _ _ _ is_operational refl probe (Every-new within))))))

  -- The router of a listener.
  abbrev pub router_at : HttpLimits → Port → Router
  router_at limits public = (routers axum limits).0
  router_at limits operational = (routers axum limits).1

  -- Whatever path and method a request has: on the public listener it comes to a handler that puts
  -- queries to the database only through the layers that catch panics and keep the time, then the limit
  -- on the body, then admission; to any other handler there through the outer layers alone, so that it
  -- is never shed. No operational endpoint is on the public listener, and nothing else on the other.
  pub endpoint-IsGuarded :
      (limits : HttpLimits) (port : Port) (m : Method) (path : Bytes) (e : Endpoint)
      → axum.endpoint (router_at limits port) m path ≡ some e
      → IsGuarded limits port e
  unfolding routers
  endpoint-IsGuarded limits public m path e h =
      subst (Holds (IsGuarded limits public)) h (Every-public_router limits m path)
  endpoint-IsGuarded limits operational m path e h =
      subst (Holds (IsGuarded limits operational)) h (Every-metrics_router limits m path)
