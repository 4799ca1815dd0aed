-- ===== src/Http/Connection.antt =====
-- `Session` of include/server/http/session.hpp and src/server/http/session.cpp: one connection. What
-- the session does to the outside is a log; an exception that leaves the parser is `none`.
use camera_player.Prelude.{
  Bool, if◌then◌else◌, Option, none, some, List, [], ◌∷◌, ◌++◌, Bytes, codes,
}
use camera_player.Http.Parser.{Parser, new_parser, reset, completed, has_error, feed}
use camera_player.Http.Response.{bad_request_response, response_text}
use camera_player.Http.Router.{Router, dispatch}

pub data Action : Type 0 where
  reads : Action
  writes : Bytes → Action

pub record Connection : Type 0 where
  pub parser : Parser
  pub log : List Action

abbrev pub act : Action → Connection → Connection
act a c = record c { log = c.log ++ a ∷ [] }

-- `start`, which begins to read.
abbrev pub start : Connection
start = record { parser = new_parser; log = reads ∷ [] }

-- What the parser leads to, once it was fed.
abbrev pub after_feed : Router → Connection → Connection
after_feed router c =
    if has_error c.parser
    then act (writes (response_text (bad_request_response (codes "Malformed HTTP request")))) c
    else if completed c.parser
    then act (writes (response_text (dispatch c.parser.req router))) c
    else act reads c

-- The handler of `do_read`, with the error flag and the bytes read.
unfoldable pub on_read : Router → Bool → Bytes → Connection → Option Connection
on_read router ec bytes c =
    let fed : Option Connection = elim (feed bytes c.parser) [
      | none ↦ none
      | some (n, p) ↦ some (after_feed router (record c { parser = p }))
    ] in
    if ec then some c else fed

-- The handler of `do_write`.
abbrev pub on_written : Bool → Connection → Connection
on_written ec c = if ec then c else act reads (record c { parser = reset c.parser })
