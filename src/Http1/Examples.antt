-- ===== src/Http1/Examples.antt =====
-- A short response in three reads, and one byte at a time.
use unstable_drift.Prelude.{ℕ, ◌≡◌, refl, some, List, [], ◌∷◌, take, drop, ok, arith}
use unstable_drift.Bytes.{Bytes}
use unstable_drift.Http1.{find_headers_end, sized_response, over, to_the_end}
use unstable_drift.Http1.Total.{sized_response_total}

-- A head of five bytes, a body of two and a byte of something else.
abbrev wire : Bytes
wire = b'H' ∷ 13 ∷ 10 ∷ 13 ∷ 10 ∷ b'o' ∷ b'k' ∷ b'?' ∷ []

abbrev body : Bytes
body = b'o' ∷ b'k' ∷ []

end : find_headers_end wire ≡ some 5
unfolding find_headers_end unstable_drift.Http1.one_further
end = refl

received : sized_response 2 wire (3 ∷ 3 ∷ 9 ∷ []) ≡ ok (5, body)
unfolding sized_response unstable_drift.Http1.read_until_headers_end unstable_drift.Http1.found
    find_headers_end unstable_drift.Http1.one_further unstable_drift.Http1.read_exact_body
    unstable_drift.Http1.exact_loop
received = refl

abbrev ones : List ℕ
ones = 1 ∷ 1 ∷ 1 ∷ 1 ∷ 1 ∷ 1 ∷ 1 ∷ 1 ∷ []

sized_response_total_example : sized_response 2 wire ones ≡ ok (5, take 2 (drop 5 wire))
sized_response_total_example =
    sized_response_total 2 wire ones 5 end (omega arith) (omega arith)
      (
        omega arith,
        (
          omega arith,
          (
            omega arith,
            (omega arith, (omega arith, (omega arith, (omega arith, (omega arith, tt))))),
          ),
        ),
      )
      (omega arith)

to_end : to_the_end (some 3) (1 ∷ 5 ∷ []) (7 ∷ []) (8 ∷ 9 ∷ []) ≡ ok (7 ∷ 8 ∷ 9 ∷ [])
unfolding to_the_end over
to_end = refl
