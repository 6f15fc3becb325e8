-- ===== src/Http1/Request.antt =====
-- http1.rs: `Http1Request` and `encode_request`. A method of the `http` crate is its name.
pub mod Framed
use unstable_drift.Prelude.{ℕ, Bool, true, false, ◌&&◌, not, List, [], ◌∷◌, ◌++◌, length}
use unstable_drift.Prelude.{if◌then◌else◌}
use unstable_drift.Bytes.{Bytes}
use unstable_drift.Bytes.Text.{ascii}
use unstable_drift.Bytes.Digits.{usize_decimal}
use unstable_drift.Http1.Headers.{HeaderMap}

abbrev pub crlf : Bytes
crlf = 13 ∷ 10 ∷ []

unfoldable pub header_lines : List (Bytes × Bytes) → Bytes
header_lines [] = []
header_lines ((name, value) ∷ rest) = (name ++ (ascii ": " ++ value)) ++ (crlf ++ header_lines rest)

unfoldable pub is_empty : Bytes → Bool
is_empty [] = true
is_empty (b ∷ bs) = false

module _ (H : HeaderMap) where
  pub record Http1Request : Type 0 where
    pub method : Bytes
    pub path : Bytes
    pub headers : H.Headers
    pub body : Bytes

  -- The Content-Length line, if the body has a byte and no header says how long it is.
  unfoldable pub length_line : Http1Request → Bytes
  length_line req =
      let has_cl = H.contains_key req.headers (ascii "content-length") in
      let has_te = H.contains_key req.headers (ascii "transfer-encoding") in
      if (not (is_empty req.body) && not has_cl) && not has_te
      then (ascii "Content-Length: " ++ usize_decimal (length req.body)) ++ crlf
      else []

  unfoldable pub encode_request : Http1Request → Bytes
  encode_request req =
      (req.method ++ (b' ' ∷ (req.path ++ ascii " HTTP/1.1")))
      ++ (crlf ++ (header_lines (H.entries req.headers) ++ (length_line req ++ (crlf ++ req.body))))
