-- ===== src/Tls/Pem.antt =====
-- tls.rs: `split_pem_certs`.
pub mod Bundle
use unstable_drift.Prelude.{ℕ, Option, none, some, List, [], ◌∷◌, ◌++◌, ◌&&◌}
use unstable_drift.Prelude.{Result, ok, err, ◌==◌, if◌then◌else◌}
use unstable_drift.Bytes.{Bytes}
use unstable_drift.Bytes.Text.{ascii}
use unstable_drift.Bytes.Search.{trim, same_text, starts_with}
use unstable_drift.Bytes.Utf8.{Utf8Error, from_utf8}
use unstable_drift.Tls.Base64.{Base64Error, base64_decode}

unfoldable pub first_line : ℕ → List Bytes → List Bytes
first_line b [] = (b ∷ []) ∷ []
first_line b (l ∷ ls) = (b ∷ l) ∷ ls

-- `lines` of std: a line ends with a line feed, with or without a carriage return in front of it.
unfoldable pub lines : Bytes → List Bytes
lines [] = []
lines (b ∷ bs) =
    let rest = lines bs in
    if b == 10
    then [] ∷ rest
    else if (b == 13) && starts_with (10 ∷ []) bs
    then rest
    else first_line b rest

abbrev pub begin_mark : Bytes
begin_mark = ascii "-----BEGIN CERTIFICATE-----"

abbrev pub end_mark : Bytes
end_mark = ascii "-----END CERTIFICATE-----"

unfoldable pub decoded : Result Base64Error Bytes → List Bytes
decoded (ok der) = der ∷ []
decoded (err e) = []

unfoldable pub emitted : Option Bytes → List Bytes
emitted none = []
emitted (some b64) = decoded (base64_decode b64)

unfoldable pub push_str : Bytes → Option Bytes → Option Bytes
push_str line none = none
push_str line (some buf) = some (buf ++ line)

-- What a line does to the certificates found and to the text of the one that is read.
unfoldable pub on_line : List Bytes × Option Bytes → Bytes → List Bytes × Option Bytes
on_line (out, current) l =
    let line = trim l in
    if same_text line begin_mark
    then (out, some [])
    else if same_text line end_mark
    then (out ++ emitted current, none)
    else (out, push_str line current)

unfoldable pub on_lines : List Bytes × Option Bytes → List Bytes → List Bytes × Option Bytes
on_lines st [] = st
on_lines st (l ∷ ls) = on_lines (on_line st l) ls

unfoldable pub certs_in : Result Utf8Error Bytes → List Bytes
certs_in (err e) = []
certs_in (ok text) = (on_lines ([], none) (lines text)).0

unfoldable pub split_pem_certs : Bytes → List Bytes
split_pem_certs bytes = certs_in (from_utf8 bytes)
