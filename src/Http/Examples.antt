-- ===== src/Http/Examples.antt =====
-- Requests that come in parts, and the routes of a small site.
use camera_player.Prelude.{false, none, some, ◌≡◌, refl, [], ◌∷◌, ◌++◌, Bytes, codes}
use camera_player.Prelude.Text.{same, split_at, words, pop_cr}
use camera_player.Http.Parser.{
  get, post, Request, new_request, Parser, new_parser, at_header_key, feed, path_of,
}
use camera_player.Http.Parser.Chunks.{shown, feed-append}
use camera_player.Http.Response.{ok_response}
use camera_player.Http.Router.{Router, RouteHandler, add_route, dispatch}
use camera_player.Http.Router.Dispatch.{dispatch-add_route}

abbrev empty_router : Router
empty_router = record {
  routes = record {
    of_get = [];
    of_post = [];
    of_put = [];
    of_delete = [];
    of_head = [];
    of_options = [];
    of_patch = [];
    of_unknown = [];
  };
  fallback = none;
}

abbrev say_hello : RouteHandler
say_hello r = ok_response (codes "hello") (codes "text/plain")

abbrev hello_request : Request
hello_request = record new_request { method = get; uri = codes "/hello?x=1" }

hello_path : path_of hello_request ≡ codes "/hello"
unfolding split_at
hello_path = refl

other_path : same (path_of hello_request) (codes "/other") ≡ false
unfolding split_at
other_path = refl

hello_is_answered :
    dispatch hello_request (add_route get (codes "/hello") say_hello empty_router)
    ≡ say_hello hello_request
hello_is_answered =
    dispatch-add_route hello_request (codes "/hello") say_hello empty_router hello_path

-- A request with a body, cut within a header and within the body.
abbrev crlf : Bytes
crlf = 13 ∷ 10 ∷ []

abbrev first_part : Bytes
first_part = codes "POST /a HTTP/1.1" ++ (crlf ++ codes "Content-Len")

abbrev second_part : Bytes
second_part = codes "gth: 5" ++ (crlf ++ (crlf ++ codes "he"))

abbrev held : Parser
held = record {
  state = at_header_key;
  req = record new_request { method = post; uri = codes "/a"; http_version = codes "HTTP/1.1" };
  buffer = codes "Content-Len";
}

first_part_read : feed first_part new_parser ≡ some (18, held)
unfolding feed split_at words pop_cr
first_part_read = refl

feed-append_example :
    shown (feed (first_part ++ second_part) new_parser) ≡ shown (feed second_part held)
feed-append_example =
    feed-append first_part second_part new_parser held 18 refl first_part_read refl
