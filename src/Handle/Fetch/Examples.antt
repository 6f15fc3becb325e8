-- ===== src/Handle/Fetch/Examples.antt =====
-- A GET over HTTP at a port of its own, by a handle with a header, and its answer.
use unstable_drift.Prelude.{◌≡◌, refl, Option, some, List, [], ◌∷◌, ◌++◌, ok, arith}
use unstable_drift.Bytes.{Bytes}
use unstable_drift.Bytes.Text.{ascii}
use unstable_drift.Http1.Exchange.{Parsed, complete}
use unstable_drift.Http1.Listed.{listed, listed_laws}
use unstable_drift.Http1.Request.{crlf}
use unstable_drift.Handle.{http, ParsedUrl}
use unstable_drift.Handle.Settings.{Header, WispHandle, new, add_header}
use unstable_drift.Handle.Fetch.{Response, build_headers, perform_http1}
use unstable_drift.Handle.Fetch.Fields.{Fields, build_headers_outcome}
use unstable_drift.Handle.Fetch.Sound.{IsAnswer, perform_http1_sound}

abbrev there : ParsedUrl
there = record { scheme = http; host = ascii "h"; port = 8080; path = ascii "/" }

abbrev handle : WispHandle
handle = add_header (ascii "Host") (ascii "evil") (new (ascii "1"))

abbrev fields : List (Bytes × Bytes)
fields =
    (ascii "host", ascii "h:8080")
    ∷ (ascii "host", ascii "evil")
    ∷ (ascii "user-agent", ascii "drift/1")
    ∷ (ascii "accept-encoding", ascii "br, gzip")
    ∷ []

built : build_headers listed there handle ≡ ok fields
unfolding build_headers unstable_drift.Handle.Fetch.append_all add_header new
    unstable_drift.Handle.Fetch.with_agent unstable_drift.Http1.Headers.is_some
    unstable_drift.Http1.Listed.look_up unstable_drift.Http1.Listed.without
    unstable_drift.Bytes.Search.same_text unstable_drift.Bytes.Search.to_lowercase
    unstable_drift.Handle.Fetch.with_encodings unstable_drift.Handle.Fetch.inserted
    unstable_drift.Handle.Compression.accept_encoding_header
    unstable_drift.Handle.Options.general_default unstable_drift.Handle.Fetch.host_value
    unstable_drift.Handle.Fetch.is_default_port unstable_drift.Bytes.Text.decimal
    unstable_drift.Bytes.Text.digits_from unstable_drift.Handle.Options.cookie_default
    unstable_drift.Handle.Options.dns_default unstable_drift.Handle.Options.http_default
    unstable_drift.Handle.Options.tcp_default unstable_drift.Handle.Options.timeout_default
    unstable_drift.Handle.Options.tls_default
built = refl

build_headers_outcome_example : Fields listed listed_laws there handle fields
build_headers_outcome_example = build_headers_outcome listed listed_laws there handle fields built

abbrev parser : Bytes → Parsed
parser head = complete (record {
  version = some 1;
  code = some 200;
  headers = (ascii "Content-Length", ascii "2") ∷ (ascii "Content-Encoding", ascii "GZip") ∷ [];
})

abbrev wire : Bytes
wire = ascii "HTTP/1.1 200 OK" ++ (crlf ++ (crlf ++ ascii "zz"))

-- A decoder that reads one body only.
abbrev gunzip : Bytes → Option Bytes
gunzip body = some (ascii "plain")

abbrev answer : Response
answer = record {
  status = 200;
  headers =
      record { name = ascii "content-length"; value = ascii "2" }
      ∷ record { name = ascii "content-encoding"; value = ascii "GZip" }
      ∷ [];
  body = ascii "plain";
}

abbrev written : Bytes
written =
    ascii "GET / HTTP/1.1"
    ++ (crlf
        ++ (ascii "host: h:8080"
            ++ (crlf
                ++ (ascii "host: evil"
                    ++ (crlf
                        ++ (ascii "user-agent: drift/1"
                            ++ (crlf ++ (ascii "accept-encoding: br, gzip" ++ (crlf ++ crlf)))))))))

answered :
    perform_http1 listed parser some some gunzip some there handle (wire, 30 ∷ 30 ∷ [])
    ≡ (written, ok answer)
unfolding perform_http1 unstable_drift.Handle.Fetch.exchanged
    unstable_drift.Handle.Fetch.response_of unstable_drift.Handle.Fetch.request_for build_headers
    unstable_drift.Handle.Fetch.append_all add_header new unstable_drift.Handle.Fetch.with_agent
    unstable_drift.Http1.Headers.is_some unstable_drift.Http1.Listed.look_up
    unstable_drift.Http1.Listed.without unstable_drift.Bytes.Search.same_text
    unstable_drift.Bytes.Search.to_lowercase unstable_drift.Http1.Exchange.send_request
    unstable_drift.Http1.read_until_headers_end unstable_drift.Http1.found
    unstable_drift.Http1.find_headers_end unstable_drift.Http1.one_further
    unstable_drift.Bytes.Digits.hex_digit unstable_drift.Bytes.Digits.parse_hex
    unstable_drift.Bytes.Digits.parse_u64 unstable_drift.Bytes.Digits.u64_digits
    unstable_drift.Bytes.Digits.usize_decimal unstable_drift.Bytes.Digits.usize_digits
    unstable_drift.Bytes.Search.before_char unstable_drift.Bytes.Search.contains
    unstable_drift.Bytes.Search.only_white unstable_drift.Bytes.Search.starts_with
    unstable_drift.Bytes.Search.trim unstable_drift.Bytes.Search.trim_end
    unstable_drift.Bytes.Search.trim_start_from unstable_drift.Bytes.Text.decimal
    unstable_drift.Bytes.Text.digits_from unstable_drift.Bytes.Text.white
    unstable_drift.Bytes.Utf8.is_utf8 unstable_drift.Handle.Compression.accept_encoding_header
    unstable_drift.Handle.Compression.decode_as unstable_drift.Handle.Compression.decode_body
    unstable_drift.Handle.Fetch.body_bytes unstable_drift.Handle.Fetch.host_value
    unstable_drift.Handle.Fetch.inserted unstable_drift.Handle.Fetch.is_default_port
    unstable_drift.Handle.Fetch.out_headers unstable_drift.Handle.Fetch.with_encodings
    unstable_drift.Handle.Options.cookie_default unstable_drift.Handle.Options.dns_default
    unstable_drift.Handle.Options.general_default unstable_drift.Handle.Options.http_default
    unstable_drift.Handle.Options.tcp_default unstable_drift.Handle.Options.timeout_default
    unstable_drift.Handle.Options.tls_default unstable_drift.Handle.Settings.as_str
    unstable_drift.Http1.Body.choose_body unstable_drift.Http1.Body.counted_body
    unstable_drift.Http1.Body.encoded_body unstable_drift.Http1.Body.read_body
    unstable_drift.Http1.Body.text_of unstable_drift.Http1.Body.unwrap_or_empty
    unstable_drift.Http1.Chunked.chunk_size unstable_drift.Http1.Chunked.chunks
    unstable_drift.Http1.Chunked.fill unstable_drift.Http1.Chunked.find_crlf
    unstable_drift.Http1.Chunked.read_chunk unstable_drift.Http1.Chunked.read_chunked_body
    unstable_drift.Http1.Chunked.read_size_line unstable_drift.Http1.Chunked.skip_trailers
    unstable_drift.Http1.Chunked.take_chunk unstable_drift.Http1.Exchange.collect
    unstable_drift.Http1.Exchange.head_of unstable_drift.Http1.Exchange.keeps_alive
    unstable_drift.Http1.Exchange.parse_response_head unstable_drift.Http1.Exchange.text_at
    unstable_drift.Http1.Exchange.version_of unstable_drift.Http1.Request.encode_request
    unstable_drift.Http1.Request.header_lines unstable_drift.Http1.Request.is_empty
    unstable_drift.Http1.Request.length_line unstable_drift.Http1.exact_loop
    unstable_drift.Http1.over unstable_drift.Http1.read_exact_body unstable_drift.Http1.to_the_end
answered = refl

perform_http1_sound_example :
    IsAnswer listed listed_laws parser some some gunzip some there handle wire written answer
perform_http1_sound_example =
    perform_http1_sound listed listed_laws parser some some gunzip some there handle wire written
      (30 ∷ 30 ∷ []) answer (omega arith) answered
