-- ===== src/Cli/Run.antt =====
-- drift-cli/src/main.rs: `run`, up to the sending of the request.
use unstable_drift.Prelude.{ℕ, Bool, true, false, ◌||◌, Option, none, some, List, [], ◌∷◌}
use unstable_drift.Prelude.{Result, ok, ok_or, ◌>>=◌, ◌==◌, if◌then◌else◌}
use unstable_drift.Bytes.{Bytes}
use unstable_drift.Bytes.Text.{ascii}
use unstable_drift.Bytes.Search.{trim}
use unstable_drift.Handle.Settings.{Method, custom, head, post, get}
use unstable_drift.Client.{
  builder, apply_all, build, RequestBuilder, request, header, body_text, body_bytes,
}
use unstable_drift.Cli.{Args, CliError, bad_header, unreadable}
use unstable_drift.Cli.Setters.{setters}

unfoldable pub is_given : Option Bytes → Bool
is_given none = false
is_given (some s) = true

unfoldable pub method_for : Args → Method
method_for args = chosen args.method
  where
    chosen : Option Bytes → Method
    chosen (some m) = custom m
    chosen none =
        if args.head
        then head
        else if (is_given args.data_text || is_given args.data_binary) || is_given args.json
        then post
        else get

-- `split_once(':')`
unfoldable pub split_colon : Bytes → Option (Bytes × Bytes)
split_colon [] = none
split_colon (b ∷ bs) = if b == b':' then some ([], bs) else further (split_colon bs)
  where
    further : Option (Bytes × Bytes) → Option (Bytes × Bytes)
    further none = none
    further (some (front, back)) = some (b ∷ front, back)

unfoldable pub add_flag_headers : List Bytes → RequestBuilder → Result CliError RequestBuilder
add_flag_headers [] req = ok req
add_flag_headers (h ∷ hs) req = do
  parts ← ok_or (split_colon h) (bad_header h)
  add_flag_headers hs (header (trim parts.0) (trim parts.1) req)

-- `@file`, or the text itself.
unfoldable pub contents : (reader : Bytes → Option Bytes) → Bytes → Result CliError Bytes
contents reader [] = ok []
contents reader (b ∷ bs) = if b == b'@' then ok_or (reader bs) (unreadable bs) else ok (b ∷ bs)

module _ (read_to_string read : Bytes → Option Bytes) where
  unfoldable pub with_body :
      (data_text data_binary json : Option Bytes) → RequestBuilder → Result CliError RequestBuilder
  with_body (some text) data_binary json req = do
    body ← contents read_to_string text
    ok (body_text body req)
  with_body none (some bytes) json req = do body ← contents read bytes; ok (body_bytes body req)
  with_body none none (some json) req =
      ok (body_text json (header (ascii "Content-Type") (ascii "application/json") req))
  with_body none none none req = ok req

  -- `run`, up to the sending.
  unfoldable pub run :
      (version : Bytes) → Args → (wisp_mux : Option ℕ) → Result CliError RequestBuilder
  run version args wisp_mux = do
    ss ← setters version args wisp_mux
    let client = build version (apply_all ss builder) in
        do
          req ← add_flag_headers args.headers (request client (method_for args) args.url)
          with_body args.data_text args.data_binary args.json req
