-- ===== src/Learned/Parse/Fuel.antt =====
-- The outer loop of `ParseApt` and its fuel.
use aimee_module_sandbox.Base.{
  ℕ, zero, suc, ◌≤◌, ◌<◌, Bool, true, false, ◌||◌, Option, some, List, [], ◌∷◌, ◌≡◌, arith, ltb,
  length, Bool-cases, inl, inr, if_elim, Option-cases,
}
use aimee_module_sandbox.GoString.{Bytes, codes, equal}
use aimee_module_sandbox.Learned.Tokens.{is_operator}
use aimee_module_sandbox.Learned.Parse.{
  argument, takes_value, Cursor, arguments, goes_on, segment_start, next_segment, skip_operator,
  is_apt, after_sudo, is_env_assign, segment, round, segments,
}

segment_start_shorter :
    (found : List Bytes) (before : Option Bytes) (tokens : List Bytes)
    → length (segment_start found before tokens).rest ≤ length tokens
unfolding segment_start
segment_start_shorter found before [] = omega arith
segment_start_shorter found before (t ∷ rest) =
    elim (Bool-cases (is_env_assign t || equal t (codes "sudo") || after_sudo before t)) [
      | inl skipped ↦
          rw (skipped, segment_start) (omega (arith, segment_start_shorter found (some t) rest))
      | inr kept ↦ rw (kept, segment_start) (omega arith)
    ]

next_segment_shorter :
    (found : List Bytes) (before : Option Bytes) (t : Bytes) (rest : List Bytes)
    → length (next_segment found before (t ∷ rest)).rest ≤ length rest
unfolding next_segment
next_segment_shorter found before t [] = elim (Bool-cases (is_operator t)) [
  | inl op ↦ rw (op, next_segment) (omega arith)
  | inr word ↦ rw (word, next_segment) (omega arith)
]
next_segment_shorter found before t (n ∷ rest) = elim (Bool-cases (is_operator t)) [
  | inl op ↦ rw (op, next_segment) (omega arith)
  | inr word ↦ rw (word, next_segment) (omega (arith, next_segment_shorter found (some t) n rest))
]

skip_operator_shorter :
    (found : List Bytes) (before : Option Bytes) (tokens : List Bytes)
    → length (skip_operator found before tokens).rest ≤ length tokens
skip_operator_shorter found before [] = omega arith
skip_operator_shorter found before (t ∷ rest) =
    if_elim (λ (c : Cursor). length c.rest ≤ suc (length rest)) (is_operator t) (λ op. omega arith)
      λ word. omega arith

arguments_shorter :
    (max : ℕ) (seen : Bool) (found : List Bytes) (before : Option Bytes) (tokens : List Bytes)
    → length (arguments max seen found before tokens).rest ≤ length tokens
unfolding arguments
arguments_shorter max seen found before [] = omega arith
arguments_shorter max seen found before (t ∷ []) = elim (Bool-cases (goes_on max found t)) [
  | inr stop ↦ rw stop (omega arith)
  | inl on ↦ rw on (elim (Bool-cases (takes_value t)) [
    | inl value ↦ rw value (omega arith)
    | inr plain ↦ rw plain (elim (Option-cases (argument seen found t)) [
      | inl stop ↦ rw stop (omega arith)
      | inr ((seen', found'), more) ↦ rw more (omega arith)
    ])
  ])
]
arguments_shorter max seen found before (t ∷ n ∷ rest) = elim (Bool-cases (goes_on max found t)) [
  | inr stop ↦ rw (stop, arguments) (omega arith)
  | inl on ↦
      rw (on, arguments)
        (elim (Bool-cases (takes_value t)) [
          | inl value ↦ rw value (elim (Bool-cases (is_operator n)) [
            | inl op ↦ rw op (omega (arith, arguments_shorter max seen found (some t) (n ∷ rest)))
            | inr word ↦ rw word (omega (arith, arguments_shorter max seen found (some n) rest))
          ])
          | inr plain ↦ rw plain (elim (Option-cases (argument seen found t)) [
            | inl stop ↦ rw stop (omega arith)
            | inr ((seen', found'), more) ↦
                rw more (omega (arith, arguments_shorter max seen' found' (some t) (n ∷ rest)))
          ])
        ])
]

-- A segment that is not empty loses a token.
segment_shorter :
    (max bound : ℕ) (found : List Bytes) (before : Option Bytes) (tokens : List Bytes)
    → length tokens ≤ suc bound
    → length (segment max found before tokens).rest ≤ bound
unfolding segment
segment_shorter max bound found before [] h = omega arith
segment_shorter max bound found before (t ∷ rest) h =
    if_elim (λ (c : Cursor). length c.rest ≤ bound) (is_apt t)
      (λ apt.
        let c = arguments max false found (some t) rest in
        omega (
          arith,
          arguments_shorter max false found (some t) rest,
          skip_operator_shorter c.found c.before c.rest,
        ))
      λ other. omega (arith, next_segment_shorter found before t rest)

round_shorter :
    (max bound : ℕ) (found : List Bytes) (before : Option Bytes) (tokens : List Bytes)
    → length tokens ≤ suc bound
    → length (round max found before tokens).rest ≤ bound
unfolding round
round_shorter max bound found before tokens h =
    let c = segment_start found before tokens in
    segment_shorter max bound c.found c.before c.rest
      (omega (arith, segment_start_shorter found before tokens))

-- The outer loop as Go runs it, from the names found, the token before and the tokens left to the
-- names it ends with: it ends behind the last token or at the limit, and otherwise goes on behind a
-- round that leaves fewer tokens. A loop that does not end has no run.
pub data Runs (max : ℕ) : List Bytes → Option Bytes → List Bytes → List Bytes → Type 0 where
  at_end : (found : List Bytes) (before : Option Bytes) → Runs max found before [] found
  at_limit :
      (found : List Bytes) (before : Option Bytes) (tokens : List Bytes)
      → max ≤ length found
      → Runs max found before tokens found
  goes_round :
      (found : List Bytes) (before : Option Bytes) (t : Bytes) (rest out : List Bytes)
      → length found < max
      → length (round max found before (t ∷ rest)).rest < length (t ∷ rest)
      → Runs max
          (round max found before (t ∷ rest)).found
          (round max found before (t ∷ rest)).before
          (round max found before (t ∷ rest)).rest
          out
      → Runs max found before (t ∷ rest) out

-- The outer loop ends by itself: with as much fuel as there are tokens, the result is that of a run
-- of the loop, in which every round leaves fewer tokens than it found and which ends behind the last
-- token or at the limit.
pub segments-Runs :
    (max fuel : ℕ) (found : List Bytes) (before : Option Bytes) (tokens : List Bytes)
    → length tokens ≤ fuel
    → Runs max found before tokens (segments max fuel found before tokens)
unfolding segments
segments-Runs max fuel found before [] h = at_end found before
segments-Runs max zero found before (t ∷ rest) h = absurd (omega arith)
segments-Runs max (suc fuel) found before (t ∷ rest) h =
    let c = round max found before (t ∷ rest) in
    let shorter = round_shorter max (length rest) found before (t ∷ rest) (omega arith) in
    if_elim (Runs max found before (t ∷ rest)) (ltb (length found) max)
      (λ room.
        goes_round found before t rest _ (below (length found) room) (omega (arith, shorter))
          (segments-Runs max fuel c.found c.before c.rest (omega (arith, shorter))))
      λ full. at_limit found before (t ∷ rest) (above (length found) full)
  where
    below : (n : ℕ) → ltb n max ≡ true → n < max
    below n e = ground arith

    above : (n : ℕ) → ltb n max ≡ false → max ≤ n
    above n e = ground arith
