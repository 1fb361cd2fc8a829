-- ===== src/Sidecar/Reading.antt =====
-- The reading of a push comes to an end, whatever lengths its lines declare.
use creance.Prelude.{
  ℕ, zero, suc, ◌+◌, ◌-◌, ◌≤◌, ◌<◌, none, some, List, [], ◌≡◌, ◌≢◌, refl, inl, inr, arith, leb,
  Bool-cases, Option-cases, length,
}
use creance.Prelude.Int.{ℤ, pos, negsuc, ◌+ℤ◌, ltb_ℤ}
use creance.Sidecar.Bytes.{index, subarray, parse_hex, trim_start, cut, trim, trim_end}
use creance.Sidecar.{
  RefCommand, Push, commands, unparseable, out_of_fuel, bad_line, with_command, parse_line,
  parse_from, parse_receive_pack_commands,
}

abbrev IsFinished : Push → Type 0
IsFinished p = p ≢ unparseable out_of_fuel

-- The place in the body that an offset stands for.
abbrev place : List ℕ → ℤ → ℕ
place body offset = index (length body) offset

place_le : (body : List ℕ) (offset : ℤ) → place body offset ≤ length body
place_le body (pos n) = omega arith
place_le body (negsuc n) = omega arith

subarray_empty : (body : List ℕ) (a b : ℤ) → place body b ≤ place body a → subarray body a b ≡ []
unfolding subarray
subarray_empty body a b h =
    let none_left : place body b - place body a ≡ 0 = omega (arith, h) in rw none_left

parse_line_empty : parse_line [] ≡ none
unfolding parse_line cut trim trim_start trim_end
parse_line_empty = refl

with_command-IsFinished : (c : RefCommand) (p : Push) → IsFinished p → IsFinished (with_command c p)
with_command-IsFinished c (commands cs) h = λ e. cc
with_command-IsFinished c (unparseable x) h = h

line-IsFinished :
    (fuel : ℕ) (body : List ℕ) (a next : ℤ)
    → (place body a < place body next → IsFinished (parse_from fuel body next))
    → IsFinished (elim (parse_line (subarray body a next)) [
      | none ↦ unparseable bad_line
      | some c ↦ with_command c (parse_from fuel body next)
    ])
line-IsFinished fuel body a next k = elim (Bool-cases (leb (place body next) (place body a))) [
  | inl stuck ↦ rw (subarray_empty body a next (ground arith), parse_line_empty) (λ e. cc)
  | inr on ↦ elim (Option-cases (parse_line (subarray body a next))) [
    | inl e ↦ rw e (λ e. cc)
    | inr (c, e) ↦ rw e (with_command-IsFinished c _ (k (ground arith)))
  ]
]

-- A round that is not the last moves the place on, past the length it read.
round-IsFinished :
    (fuel : ℕ) (body : List ℕ) (offset : ℤ)
    → length body < suc fuel + place body offset
    → ((next : ℤ) → length body < fuel + place body next → IsFinished (parse_from fuel body next))
    → IsFinished (parse_from (suc fuel) body offset)
unfolding parse_from
round-IsFinished fuel body offset room k =
    elim (Bool-cases (ltb_ℤ (pos (length body)) (offset +ℤ pos 4))) [
      | inl over ↦ rw (over, parse_from) (λ e. cc)
      | inr inside ↦ elim (Bool-cases (leb (place body (offset +ℤ pos 4)) (place body offset))) [
        | inl stuck ↦
            rw (inside, subarray_empty body offset (offset +ℤ pos 4) (ground arith), parse_from)
              (λ e. cc)
        | inr on ↦
            let further : place body offset < place body (offset +ℤ pos 4) = ground arith in
            let rest : (len : ℤ)
                → place body (offset +ℤ pos 4) < place body (offset +ℤ len)
                → IsFinished (parse_from fuel body (offset +ℤ len)) =
              λ len more. k (offset +ℤ len) (omega (arith, further, more, room)) in
            elim (Option-cases (parse_hex (subarray body offset (offset +ℤ pos 4)))) [
              | inl e ↦ rw (inside, e, parse_from) (λ e. cc)
              | inr (pos zero, e) ↦ rw (inside, e, parse_from) (λ e. cc)
              | inr (pos (suc n), e) ↦
                  rw (inside, e, parse_from)
                    (line-IsFinished fuel body (offset +ℤ pos 4) (offset +ℤ pos (suc n))
                      (rest (pos (suc n))))
              | inr (negsuc n, e) ↦
                  rw (inside, e, parse_from)
                    (line-IsFinished fuel body (offset +ℤ pos 4) (offset +ℤ negsuc n)
                      (rest (negsuc n)))
            ]
      ]
    ]

parse_from-IsFinished :
    (fuel : ℕ) (body : List ℕ) (offset : ℤ)
    → length body < fuel + place body offset
    → IsFinished (parse_from fuel body offset)
parse_from-IsFinished zero body offset room =
    let inside = place_le body offset in absurd (omega (arith, inside, room))
parse_from-IsFinished (suc fuel) body offset room =
    round-IsFinished fuel body offset room (parse_from-IsFinished fuel body)

-- Every push is read to an answer of the source: the rounds that the model allows, one more than
-- the body has bytes, are enough, though a negative length moves the offset back.
pub parse_receive_pack_commands-ne-out_of_fuel :
    (body : List ℕ) → parse_receive_pack_commands body ≢ unparseable out_of_fuel
unfolding parse_receive_pack_commands
parse_receive_pack_commands-ne-out_of_fuel body =
    parse_from-IsFinished (suc (length body)) body (pos 0) (omega arith)
