-- ===== src/Handle/Compression.antt =====
-- drift-core/src/compression.rs. The decoders of the async_compression crate are arguments: what they
-- make of a body, if they can read it.
use unstable_drift.Prelude.{◌||◌, Option, none, some, []}
use unstable_drift.Prelude.{Result, ok, err, ok_or, if◌then◌else◌}
use unstable_drift.Bytes.{Bytes}
use unstable_drift.Bytes.Text.{ascii}
use unstable_drift.Bytes.Search.{trim, to_lowercase, same_text}
use unstable_drift.Handle.Options.{Compression, off, gzip, brotli, automatic}

pub data CompressionError : Type 0 where
  io : CompressionError
  unsupported : Bytes → CompressionError

module _ (gunzip unbrotli : Bytes → Option Bytes) where
  -- The `match` on a value that has been trimmed and put in lower case.
  unfoldable pub decode_as : (coding body : Bytes) → Result CompressionError Bytes
  decode_as coding body =
      if same_text coding [] || same_text coding (ascii "identity")
      then ok body
      else if same_text coding (ascii "gzip") || same_text coding (ascii "x-gzip")
      then ok_or (gunzip body) io
      else if same_text coding (ascii "br")
      then ok_or (unbrotli body) io
      else err (unsupported coding)

  unfoldable pub decode_body : Bytes → (header_value : Option Bytes) → Result CompressionError Bytes
  decode_body body none = ok body
  decode_body body (some v) = decode_as (to_lowercase (trim v)) body

unfoldable pub accept_encoding_header : Compression → Option Bytes
accept_encoding_header off = none
accept_encoding_header gzip = some (ascii "gzip")
accept_encoding_header brotli = some (ascii "br")
accept_encoding_header automatic = some (ascii "br, gzip")
