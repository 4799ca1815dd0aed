-- ===== src/Http/Router/Dispatch.antt =====
-- What a route that is added changes.
use camera_player.Prelude.{Bool, true, false, none, some, ◌≡◌, refl, ap, ◌∙◌, arith, Bytes}
use camera_player.Prelude.Text.{same, lookup, insert, lookup-insert_self, lookup-insert_other}
use camera_player.Http.Parser.{
  Method, get, post, put, del, head, options, patch, unknown, Request, path_of,
}
use camera_player.Http.Response.{Response}
use camera_player.Http.Router.{
  RouteHandler, RouteMap, Routes, Router, routes_of, set_routes, has_path, path_exists, add_route,
  dispatch_missing, dispatch,
}

routes_of-set_routes : (m : Method) (x : RouteMap) (r : Routes) → routes_of m (set_routes m x r) ≡ x
routes_of-set_routes get x r = refl
routes_of-set_routes post x r = refl
routes_of-set_routes put x r = refl
routes_of-set_routes del x r = refl
routes_of-set_routes head x r = refl
routes_of-set_routes options x r = refl
routes_of-set_routes patch x r = refl
routes_of-set_routes unknown x r = refl

-- A request of the route's method, the path of whose URI is the route's, is answered by the handler
-- that was added for them last, whatever routes there are.
pub dispatch-add_route :
    (req : Request) (path : Bytes) (handler : RouteHandler) (r : Router)
    → path_of req ≡ path
    → dispatch req (add_route req.method path handler r) ≡ handler req
unfolding dispatch add_route
dispatch-add_route req path handler r e =
    let stored = insert path handler (routes_of req.method r.routes) in
    let found : lookup (path_of req) (routes_of req.method (set_routes req.method stored r.routes))
        ≡ some handler =
      ap (lookup (path_of req)) (routes_of-set_routes req.method stored r.routes)
      ∙ ap (λ p. lookup p stored) e
      ∙ lookup-insert_self path handler (routes_of req.method r.routes) in
    rw (dispatch, add_route, found) refl

-- A route is looked up for another path as before it was added.
lookup-set_routes :
    (m n : Method) (p path : Bytes) (handler : RouteHandler) (r : Routes)
    → same p path ≡ false
    → lookup p (routes_of n (set_routes m (insert path handler (routes_of m r)) r))
      ≡ lookup p (routes_of n r)
lookup-set_routes m n p path handler r h =
    ground (arith, lookup-insert_other path p handler (routes_of m r) h)

has_path-set_routes :
    (m n : Method) (p path : Bytes) (handler : RouteHandler) (r : Routes)
    → same p path ≡ false
    → has_path p (routes_of n (set_routes m (insert path handler (routes_of m r)) r))
      ≡ has_path p (routes_of n r)
has_path-set_routes m n p path handler r h =
    ap (λ o. elim o as (λ x. Bool) [ none ↦ false | some f ↦ true ])
      (lookup-set_routes m n p path handler r h)

path_exists-set_routes :
    (m : Method) (p path : Bytes) (handler : RouteHandler) (r : Routes)
    → same p path ≡ false
    → path_exists p (set_routes m (insert path handler (routes_of m r)) r) ≡ path_exists p r
path_exists-set_routes m p path handler r h =
    let a = has_path-set_routes m get p path handler r h in
    let b = has_path-set_routes m post p path handler r h in
    let c = has_path-set_routes m put p path handler r h in
    let d = has_path-set_routes m del p path handler r h in
    let e = has_path-set_routes m head p path handler r h in
    let f = has_path-set_routes m options p path handler r h in
    let g = has_path-set_routes m patch p path handler r h in
    let i = has_path-set_routes m unknown p path handler r h in rw (a, b, c, d, e, f, g, i) refl

dispatch_missing-same :
    (req : Request) (r s : Router)
    → path_exists (path_of req) s.routes ≡ path_exists (path_of req) r.routes
    → s.fallback ≡ r.fallback
    → dispatch_missing req s ≡ dispatch_missing req r
dispatch_missing-same req r s e f = rw (dispatch_missing, e, f) refl

dispatch-same :
    (req : Request) (r s : Router)
    → lookup (path_of req) (routes_of req.method s.routes)
      ≡ lookup (path_of req) (routes_of req.method r.routes)
    → dispatch_missing req s ≡ dispatch_missing req r
    → dispatch req s ≡ dispatch req r
unfolding dispatch
dispatch-same req r s e f =
    ap
      (λ o. elim o as (λ x. Response) [
        | none ↦ dispatch_missing req s
        | some handler ↦ handler req
      ])
      e
    ∙ ap
        (λ m. elim (lookup (path_of req) (routes_of req.method r.routes)) as (λ x. Response) [
          | none ↦ m
          | some handler ↦ handler req
        ])
        f

-- A route that is added changes no answer to a request for another path: handled, refused with 405 or
-- not found, it is as before.
pub dispatch-add_route_other :
    (req : Request) (m : Method) (path : Bytes) (handler : RouteHandler) (r : Router)
    → same (path_of req) path ≡ false
    → dispatch req (add_route m path handler r) ≡ dispatch req r
unfolding dispatch add_route
dispatch-add_route_other req m path handler r h =
    dispatch-same req r (add_route m path handler r)
      (lookup-set_routes m req.method (path_of req) path handler r.routes h)
      (dispatch_missing-same req r (add_route m path handler r)
        (path_exists-set_routes m (path_of req) path handler r.routes h) refl)
