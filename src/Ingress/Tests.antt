-- ===== src/Ingress/Tests.antt =====
-- The reader of request bodies on small requests; numbers have one digit.
use misscomputer_subnet.Prelude.{
  ℕ, ◌+◌, ◌-◌, ◌≤◌, ◌≡◌, ◌↔◌, refl, Text, codes, text_eq, Option, none, some, [], ◌∷◌, ltb,
  if◌then◌else◌, ok, err,
}
use misscomputer_subnet.Ingress.{
  Header, Number, natural, negative, Stream, ends, gives, times_out, declared_length, extended,
  read_loop, read_request_body, conflicting_framing, invalid_length, declared_too_large,
  body_too_large, total_deadline, idle_deadline, length_differs,
}
use misscomputer_subnet.Ingress.Bounds.{IsAllowed, read_request_body-largest, read_request_body_iff}

abbrev one_digit : Text → Option Number
one_digit [] = none
one_digit (c ∷ []) = if ltb 57 c then none else some (natural (c - 48))
one_digit (c ∷ d ∷ t) = some negative

abbrev digit_text : ℕ → Text
digit_text n = (n + 48) ∷ []

abbrev length_header : Text → Header
length_header value = record { name = codes "Content-Length"; value = value }

abbrev chunked_header : Header
chunked_header = record { name = codes "transfer-encoding"; value = codes "chunked" }

abbrev two_chunks : Stream
two_chunks = gives 1 (7 ∷ 8 ∷ []) (gives 2 (9 ∷ []) (ends 3))

read_test :
    (read_request_body one_digit digit_text
      (length_header (codes "3") ∷ [])
      4
      2
      15
      0
      two_chunks).outcome
    ≡ ok (7 ∷ 8 ∷ 9 ∷ [])
unfolding read_request_body declared_length read_loop extended text_eq
read_test = refl

too_large_test :
    (read_request_body one_digit digit_text [] 2 2 15 0 two_chunks).outcome ≡ err body_too_large
unfolding read_request_body declared_length read_loop extended text_eq
too_large_test = refl

declared_too_large_test :
    (read_request_body one_digit digit_text
      (length_header (codes "3") ∷ [])
      2
      2
      15
      0
      two_chunks).outcome
    ≡ err declared_too_large
unfolding read_request_body declared_length read_loop extended text_eq
declared_too_large_test = refl

differs_test :
    (read_request_body one_digit digit_text
      (length_header (codes "4") ∷ [])
      4
      2
      15
      0
      two_chunks).outcome
    ≡ err length_differs
unfolding read_request_body declared_length read_loop extended text_eq
differs_test = refl

conflict_test :
    (read_request_body one_digit digit_text
      (chunked_header ∷ length_header (codes "3") ∷ [])
      4
      2
      15
      0
      two_chunks).outcome
    ≡ err conflicting_framing
unfolding read_request_body declared_length read_loop extended text_eq
conflict_test = refl

negative_test :
    (read_request_body one_digit digit_text
      (length_header (codes "-3") ∷ [])
      4
      2
      15
      0
      two_chunks).outcome
    ≡ err invalid_length
unfolding read_request_body declared_length read_loop extended text_eq
negative_test = refl

idle_test :
    (read_request_body one_digit digit_text [] 4 2 15 0 (times_out 1 3)).outcome ≡ err idle_deadline
unfolding read_request_body declared_length read_loop extended text_eq
idle_test = refl

late_test :
    (read_request_body one_digit digit_text [] 4 2 15 0 (times_out 14 15)).outcome
    ≡ err total_deadline
unfolding read_request_body declared_length read_loop extended text_eq
late_test = refl

read_request_body-largest_example :
    (read_request_body one_digit digit_text [] 2 2 15 0 two_chunks).largest ≤ 2 + 1
read_request_body-largest_example =
    read_request_body-largest one_digit digit_text [] 2 2 15 0 two_chunks

read_request_body_iff_example :
    ((read_request_body one_digit digit_text
        (length_header (codes "3") ∷ [])
        4
        2
        15
        0
        two_chunks).outcome
      ≡ ok (7 ∷ 8 ∷ 9 ∷ []))
    ↔ ((1 ≤ 4)
        × (1 ≤ 2)
        × (1 ≤ 15)
        × IsAllowed one_digit digit_text
            (length_header (codes "3") ∷ [])
            4
            2
            15
            0
            two_chunks
            (declared_length one_digit digit_text (length_header (codes "3") ∷ []) 4)
            (7 ∷ 8 ∷ 9 ∷ []))
read_request_body_iff_example =
    read_request_body_iff one_digit digit_text (length_header (codes "3") ∷ []) 4 2 15 0 two_chunks
      (7 ∷ 8 ∷ 9 ∷ [])
