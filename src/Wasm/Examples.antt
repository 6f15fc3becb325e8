-- ===== src/Wasm/Examples.antt =====
-- `wss://h:8443/chat`, and calls that share a mux.
use unstable_drift.Prelude.{true, some, List, [], ◌∷◌, ◌≡◌, ◌↔◌, refl, ◌++◌, arith}
use unstable_drift.Prelude.{ok}
use unstable_drift.Bytes.Text.{ascii}
use unstable_drift.Handle.{https, ParsedUrl, parse_url}
use unstable_drift.Bytes.{Bytes}
use unstable_drift.Wasm.Connection.{
  relay, direct, new, set_websocket, set_moonbeam_relay, preferred, World, Event, sets_websocket,
  sets_relay, ensures, connects, begin, pick, finish, step,
}
use unstable_drift.Wasm.Connection.Current.{
  IsOrderly, names_server, calls, ends, over, AlwaysCurrent, start, handed_out_current,
}
use unstable_drift.Wasm.Url.{parse_ws_url, web, ws, parse_ws_url_iff}

abbrev chat : ParsedUrl
chat = record { scheme = https; host = ascii "h"; port = 8443; path = ascii "/chat" }

parse_ws_url_iff_example :
    (parse_url (web https ++ ascii "h:8443/chat") ≡ ok chat)
    ↔ (parse_ws_url (ws https ++ ascii "h:8443/chat") ≡ ok (ascii "h", 8443, ascii "/chat"))
parse_ws_url_iff_example =
    parse_ws_url_iff https (ascii "h:8443/chat") chat refl (λ e. ground arith)

read_chat : parse_ws_url (ascii "wss://h:8443/chat") ≡ ok (ascii "h", 8443, ascii "/chat")
unfolding parse_ws_url unstable_drift.Wasm.Url.scheme_and_rest unstable_drift.Wasm.Url.strip_prefix
    unstable_drift.Wasm.Url.ws_port unstable_drift.Handle.rsplit_colon
    unstable_drift.Wasm.Url.host_and_path unstable_drift.Wasm.Url.split_slash
    unstable_drift.Handle.prepend unstable_drift.Handle.or_here unstable_drift.Bytes.Text.parse_u16
    unstable_drift.Bytes.Text.u16_digits
read_chat = refl

abbrev server : Bytes
server = ascii "wss://w/"

-- A server is named, a call waits for its connection, and the next call shares it.
abbrev two_calls : List Event
two_calls = sets_websocket server ∷ (ensures ∷ (connects 0 true ∷ (ensures ∷ [])))

two_calls-IsOrderly : IsOrderly two_calls start
unfolding step set_websocket begin finish pick new
two_calls-IsOrderly = names_server refl (calls (ends (calls over)))

handed_out_current_example : AlwaysCurrent two_calls start
handed_out_current_example = handed_out_current two_calls two_calls-IsOrderly

after_all : List Event → World → World
after_all [] w = w
after_all (e ∷ es) w = after_all es (step e w).1

-- A relay is named while the connection to the server is awaited: the next call still gets the server.
stale :
    let w =
      after_all
        (sets_websocket server ∷ (ensures ∷ (sets_relay (some 1) ∷ (connects 0 true ∷ []))))
        start in
    ((step ensures w).0 ≡ some (direct server)) × (preferred w.state ≡ some (relay 1))
unfolding after_all step begin finish pick new preferred set_websocket set_moonbeam_relay
    unstable_drift.Wasm.Connection.route_of
stale = (refl, refl)

-- A server named behind a relay is not used.
relay_stays : preferred (set_websocket server (set_moonbeam_relay (some 1) new)) ≡ some (relay 1)
unfolding preferred set_websocket set_moonbeam_relay new unstable_drift.Wasm.Connection.route_of
relay_stays = refl
