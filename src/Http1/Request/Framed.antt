-- ===== src/Http1/Request/Framed.antt =====
-- http1.rs, `encode_request`: where a reader finds the end of the head.
use unstable_drift.Prelude.{
  ℕ, suc, ◌+◌, ◌/◌, ◌%◌, ◌<◌, ◌≡◌, ◌≢◌, refl, ap, sym, subst, ◌∙◌, Bool, true, false, ◌&&◌, ◌||◌,
  not, some, List, [], ◌∷◌, ◌++◌, length, drop, drop_past, append_assoc, All, All-append,
  length-append, arith,
}
use unstable_drift.Prelude.{◌==◌, ltb, if-both, Bool-cases, inl, inr}
use unstable_drift.Bytes.{Bytes}
use unstable_drift.Bytes.Text.{ascii, digits_from}
use unstable_drift.Bytes.Digits.{usize_decimal}
use unstable_drift.Http1.{find_headers_end, one_further}
use unstable_drift.Http1.Headers.{HeaderMap}
use unstable_drift.Http1.Request.{
  crlf, header_lines, is_empty, Http1Request, length_line, encode_request,
}

-- No carriage return, which a line of the head must not hold.
abbrev pub IsInline : Bytes → Type 0
IsInline = All (λ b. b ≢ 13)

unfoldable pub holds_return : Bytes → Bool
holds_return [] = false
holds_return (b ∷ bs) = (b == 13) || holds_return bs

-- For literals.
pub literal-IsInline : (text : Bytes) → holds_return text ≡ false → IsInline text
unfolding holds_return
literal-IsInline [] h = tt
literal-IsInline (b ∷ bs) h = elim (Bool-cases (b == 13)) [
  | inl e ↦ let f : true ≡ false = sym (ap (λ x. x || holds_return bs) e) ∙ h in ground arith
  | inr e ↦ (λ q. ground arith, literal-IsInline bs (sym (ap (λ x. x || holds_return bs) e) ∙ h))
]

past_byte :
    (b n : ℕ) (rest : Bytes)
    → b ≢ 13
    → find_headers_end rest ≡ some n
    → find_headers_end (b ∷ rest) ≡ some (suc n)
unfolding find_headers_end one_further
past_byte b n [] h e = ground arith
past_byte b n (c ∷ []) h e = ground arith
past_byte b n (c ∷ d ∷ []) h e = ground arith
past_byte b n (c ∷ d ∷ f ∷ rest) h e =
    let no : (b == 13) ≡ false = ground arith in rw no (ap one_further e)

past_line :
    (line rest : Bytes) (n : ℕ)
    → IsInline line
    → find_headers_end rest ≡ some n
    → find_headers_end (line ++ rest) ≡ some (length line + n)
past_line [] rest n h e = e ∙ ap some (omega arith)
past_line (b ∷ line) rest n h e =
    past_byte b (length line + n) (line ++ rest) h.0 (past_line line rest n h.1 e)
    ∙ ap some (omega arith)

past_crlf :
    (c n : ℕ) (rest : Bytes)
    → c ≢ 13
    → find_headers_end (c ∷ rest) ≡ some n
    → find_headers_end (13 ∷ 10 ∷ c ∷ rest) ≡ some (2 + n)
unfolding find_headers_end one_further
past_crlf c n [] h e = ground arith
past_crlf c n (d ∷ rest) h e =
    let no : (c == 13) ≡ false = ground arith in
    let next = past_byte 10 n (c ∷ d ∷ rest) (omega arith) e in
    rw no (ap one_further next ∙ ap some (omega arith))

-- What stands behind a line's end: the rest of a head, and `body` behind it.
Heads : Bytes → Bytes → Type 0
Heads text body =
    (n : ℕ) × (find_headers_end (13 ∷ 10 ∷ text) ≡ some (2 + n)) × (drop n text ≡ body)

blank-Heads : (body : Bytes) → Heads (13 ∷ 10 ∷ body) body
unfolding Heads find_headers_end
blank-Heads body = (2, refl, refl)

line-Heads :
    (line text body : Bytes)
    → IsInline line
    → 0 < length line
    → Heads text body
    → Heads (line ++ (13 ∷ 10 ∷ text)) body
unfolding Heads
line-Heads [] text body h pos k = absurd (omega arith)
line-Heads (b ∷ line) text body h pos (n, e, d) =
    let m = length (b ∷ line) + (2 + n) in
    (
      m,
      past_crlf b m (line ++ (13 ∷ 10 ∷ text)) h.0
          (past_line (b ∷ line) (13 ∷ 10 ∷ text) (2 + n) h e),
      drop_past m (2 + n) (b ∷ line) (13 ∷ 10 ∷ text) refl
          ∙ drop_past (2 + n) n (13 ∷ 10 ∷ []) text refl
          ∙ d,
    )

-- The names and values that a map of headers lists.
abbrev pub AreInline : List (Bytes × Bytes) → Type 0
AreInline = All (λ e. IsInline e.0 × IsInline e.1)

headers-Heads :
    (es : List (Bytes × Bytes)) (text body : Bytes)
    → AreInline es
    → Heads text body
    → Heads (header_lines es ++ text) body
unfolding header_lines
headers-Heads [] text body h k = k
headers-Heads ((name, value) ∷ es) text body h k =
    let line = name ++ (ascii ": " ++ value) in
    let a = length-append name (ascii ": " ++ value) in
    let inside : IsInline line =
      All-append (λ b. b ≢ 13) name (ascii ": " ++ value) h.0.0
        (λ e. ground arith, (λ e. ground arith, h.0.1)) in
    subst (λ x. Heads x body) (sym (append_assoc line (crlf ++ header_lines es) text))
      (line-Heads line (header_lines es ++ text) body inside (omega arith)
        (headers-Heads es text body h.1 k))

-- Digits are no line ends.
digits-IsInline : (ws : List ℕ) (started : Bool) (n : ℕ) → IsInline (digits_from ws started n)
unfolding digits_from
digits-IsInline [] started n = tt
digits-IsInline (w ∷ ws) started n =
    let shown : IsInline ((48 + n / w % 10) ∷ digits_from ws true n) =
      (λ e. omega (arith, e), digits-IsInline ws true n) in
    if-both IsInline (started || ((w == 1) || ltb 0 (n / w % 10)))
      {x = (48 + n / w % 10) ∷ digits_from ws true n} shown (digits-IsInline ws false n)

module _ (H : HeaderMap) where
  length-Heads :
      (req : Http1Request H) (text body : Bytes)
      → Heads text body
      → Heads (length_line H req ++ text) body
  unfolding length_line usize_decimal holds_return
  length-Heads req text body k =
      let has_cl = H.contains_key req.headers (ascii "content-length") in
      let has_te = H.contains_key req.headers (ascii "transfer-encoding") in
      if-both (λ l. Heads (l ++ text) body) ((not (is_empty req.body) && not has_cl) && not has_te)
        (let digits = usize_decimal (length req.body) in
          let inside : IsInline (ascii "Content-Length: " ++ digits) =
            All-append (λ b. b ≢ 13) (ascii "Content-Length: ") digits
              (literal-IsInline (ascii "Content-Length: ") refl)
              (digits-IsInline _ false (length req.body)) in
          subst (λ x. Heads x body)
            (sym (append_assoc (ascii "Content-Length: " ++ digits) crlf text))
            (line-Heads (ascii "Content-Length: " ++ digits) text body inside (omega arith) k))
        k

  -- An encoded request whose method, path, names and values hold no carriage return is cut as it was put
  -- together: its first empty line ends the head, and the body stands behind it, whatever bytes it has.
  -- The types of the http crate rule out the byte in the method, the names and the values; nothing
  -- rules it out in the path, which is the caller's URL.
  pub encode_request_framed :
      (req : Http1Request H)
      → IsInline req.method
      → IsInline req.path
      → AreInline (H.entries req.headers)
      → (idx : ℕ) × (find_headers_end (encode_request H req) ≡ some idx)
        × (drop idx (encode_request H req) ≡ req.body)
  unfolding encode_request Heads holds_return
  encode_request_framed req m p h =
      let line = req.method ++ (b' ' ∷ (req.path ++ ascii " HTTP/1.1")) in
      let text =
        header_lines (H.entries req.headers) ++ (length_line H req ++ (crlf ++ req.body)) in
      let (n, e, d) =
        headers-Heads (H.entries req.headers) (length_line H req ++ (crlf ++ req.body)) req.body h
          (length-Heads req (crlf ++ req.body) req.body (blank-Heads req.body)) in
      let tail : IsInline (req.path ++ ascii " HTTP/1.1") =
        All-append (λ b. b ≢ 13) req.path (ascii " HTTP/1.1") p
          (literal-IsInline (ascii " HTTP/1.1") refl) in
      let inside : IsInline line =
        All-append (λ b. b ≢ 13) req.method (b' ' ∷ (req.path ++ ascii " HTTP/1.1")) m
          (λ e. ground arith, tail) in
      (
        length line + (2 + n),
        past_line line (13 ∷ 10 ∷ text) (2 + n) inside e,
        drop_past (length line + (2 + n)) (2 + n) line (13 ∷ 10 ∷ text) refl
            ∙ drop_past (2 + n) n (13 ∷ 10 ∷ []) text refl
            ∙ d,
      )
