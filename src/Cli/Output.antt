-- ===== src/Cli/Output.antt =====
-- drift-cli/src/output.rs and the end of main.rs: what is written where. Nothing stands for standard output; a file that is
-- opened is written from its start.
use unstable_drift.Prelude.{Bool, Option, none, some, List, [], ◌∷◌, ◌++◌}
use unstable_drift.Prelude.{if◌then◌else◌}
use unstable_drift.Bytes.{Bytes}
use unstable_drift.Bytes.Text.{ascii, decimal}
use unstable_drift.Handle.Settings.{Header}
use unstable_drift.Client.{Response}
use unstable_drift.Cli.{Args}

abbrev pub line : Bytes → Bytes
line text = text ++ 10 ∷ []

unfoldable pub header_text : List Header → Bytes
header_text [] = []
header_text (h ∷ hs) = line (h.name ++ (ascii ": " ++ h.value)) ++ header_text hs

unfoldable pub status_and_headers : Response → Bytes
status_and_headers resp =
    line (ascii "HTTP/1.1 " ++ decimal resp.status) ++ (header_text resp.headers ++ line [])

unfoldable pub dumped : Response → Option Bytes → List (Option Bytes × Bytes)
dumped resp none = []
dumped resp (some path) = (some path, status_and_headers resp) ∷ []

unfoldable pub write_response :
    Response
    → (include_headers : Bool) → (output dump_header : Option Bytes) → List (Option Bytes × Bytes)
write_response resp include_headers output dump_header =
    dumped resp dump_header
    ++ ((output, if include_headers then status_and_headers resp ++ resp.body else resp.body) ∷ [])

unfoldable pub write_head_only : Response → List (Option Bytes × Bytes)
write_head_only resp = (none, status_and_headers resp) ∷ []

-- The end of `run`.
unfoldable pub shown : Args → Response → List (Option Bytes × Bytes)
shown args resp =
    if args.head
    then write_head_only resp
    else write_response resp args.include_headers args.output args.dump_header
