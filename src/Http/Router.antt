-- ===== src/Http/Router.antt =====
-- `Router` of include/server/http/router.hpp and src/server/http/router.cpp. Of the array of maps,
-- each is a list in the order of its keys, which are the paths.

pub mod Dispatch
use camera_player.Prelude.{
  ℕ, Bool, true, false, ◌||◌, if◌then◌else◌, Option, none, some, List, [], ◌∷◌, ◌++◌, Bytes, codes,
}
use camera_player.Prelude.Text.{lookup, insert}
use camera_player.Http.Parser.{
  Method, get, post, put, del, head, options, patch, unknown, Request, path_of,
}
use camera_player.Http.Response.{
  Response, method_not_allowed, set_status, internal_error, not_found_response,
}

-- `RouteHandler` and `RouteMap`.
abbrev pub RouteHandler : Type 0
RouteHandler = Request → Response

abbrev pub RouteMap : Type 0
RouteMap = List (Bytes × RouteHandler)

-- The routes, an element of the array for each method.
pub record Routes : Type 0 where
  pub of_get : RouteMap
  pub of_post : RouteMap
  pub of_put : RouteMap
  pub of_delete : RouteMap
  pub of_head : RouteMap
  pub of_options : RouteMap
  pub of_patch : RouteMap
  pub of_unknown : RouteMap

pub record Router : Type 0 where
  pub routes : Routes
  pub fallback : Option RouteHandler

-- The element at `method_index`, and the array with another one there.
abbrev pub routes_of : Method → Routes → RouteMap
routes_of get r = r.of_get
routes_of post r = r.of_post
routes_of put r = r.of_put
routes_of del r = r.of_delete
routes_of head r = r.of_head
routes_of options r = r.of_options
routes_of patch r = r.of_patch
routes_of unknown r = r.of_unknown

abbrev pub set_routes : Method → RouteMap → Routes → Routes
set_routes get m r = record r { of_get = m }
set_routes post m r = record r { of_post = m }
set_routes put m r = record r { of_put = m }
set_routes del m r = record r { of_delete = m }
set_routes head m r = record r { of_head = m }
set_routes options m r = record r { of_options = m }
set_routes patch m r = record r { of_patch = m }
set_routes unknown m r = record r { of_unknown = m }

-- `add_route`, which `get`, `post`, `put` and `del` call.
unfoldable pub add_route : Method → Bytes → RouteHandler → Router → Router
add_route method path handler r = record r {
  routes = set_routes method (insert path handler (routes_of method r.routes)) r.routes;
}

abbrev pub set_fallback : RouteHandler → Router → Router
set_fallback handler r = record r { fallback = some handler }

-- `count`, for each method in turn.
abbrev pub has_path : Bytes → RouteMap → Bool
has_path path m = elim (lookup path m) [ none ↦ false | some handler ↦ true ]

abbrev pub path_exists : Bytes → Routes → Bool
path_exists path r =
    has_path path r.of_get
    || has_path path r.of_post
    || has_path path r.of_put
    || has_path path r.of_delete
    || has_path path r.of_head
    || has_path path r.of_options
    || has_path path r.of_patch
    || has_path path r.of_unknown

-- What answers where no route of the method has the path.
abbrev pub dispatch_missing : Request → Router → Response
dispatch_missing req r =
    if path_exists (path_of req) r.routes
    then set_status method_not_allowed (internal_error (codes "Method Not Allowed"))
    else elim r.fallback [
      | some handler ↦ handler req
      | none ↦ not_found_response (codes "Not Found: " ++ path_of req)
    ]

-- `dispatch`.
unfoldable pub dispatch : Request → Router → Response
dispatch req r = elim (lookup (path_of req) (routes_of req.method r.routes)) [
  | some handler ↦ handler req
  | none ↦ dispatch_missing req r
]
