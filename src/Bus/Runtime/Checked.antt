-- ===== src/Bus/Runtime/Checked.antt =====
-- What an answer that a handler gave turns into before it is sent.
use aimee_module_sandbox.Base.{
  ℕ, ◌≤◌, ◌<◌, true, false, not, ◌||◌, [], ◌≡◌, refl, arith, ◌⊎◌, ltb, ◌==◌, if_elim, length,
}
use mathlib.Core.Path.{subst}
use aimee_module_sandbox.GoString.{Bytes}
use aimee_module_sandbox.Bus.Message.{max_body}
use aimee_module_sandbox.Bus.Runtime.{checked_result}

-- The status and the body given, and those that are sent: OK with a body of at most 16 MiB is sent as
-- it is; another status, of those there are, without its body; and anything else as Internal.
pub data Fits : ℕ → Bytes → ℕ → Bytes → Type 0 where
  whole : (body : Bytes) → length body ≤ max_body → Fits 0 body 0 body
  failing :
      (status : ℕ) (body : Bytes)
      → 0 < status
      → status ≤ 5
      → length body ≤ max_body
      → Fits status body status []
  unfit :
      (status : ℕ) (body : Bytes) → (5 < status) ⊎ (max_body < length body) → Fits status body 5 []

pub checked_result-Fits :
    (status : ℕ) (body : Bytes)
    → Fits status body (checked_result status body).0 (checked_result status body).1
unfolding checked_result
checked_result-Fits status body =
    if_elim Goal (ltb 5 status || ltb max_body (length body))
      (λ bad. unfit status body (too_large status (length body) bad))
      λ fine.
        if_elim Goal (not (status == 0))
          (λ other.
            failing status body (positive status other) (low status (length body) fine).0
              (low status (length body) fine).1)
          λ ok.
            subst (λ (s : ℕ). Fits s body s body) (is_zero status ok)
              (whole body (low status (length body) fine).1)
  where
    Goal : ℕ × Bytes → Type 0
    Goal r = Fits status body r.0 r.1

    too_large : (s n : ℕ) → (ltb 5 s || ltb max_body n) ≡ true → (5 < s) ⊎ (max_body < n)
    too_large s n e = ground arith

    low : (s n : ℕ) → (ltb 5 s || ltb max_body n) ≡ false → (s ≤ 5) × (n ≤ max_body)
    low s n e = ground arith

    positive : (s : ℕ) → not (s == 0) ≡ true → 0 < s
    positive s e = ground arith

    is_zero : (s : ℕ) → not (s == 0) ≡ false → 0 ≡ s
    is_zero s e = ground arith

-- Nothing else is sent for an answer.
pub Fits-checked_result :
    {status sent : ℕ} {body bytes : Bytes}
    → Fits status body sent bytes
    → checked_result status body ≡ (sent, bytes)
unfolding checked_result
Fits-checked_result (whole body h) =
    if_elim (λ (r : ℕ × Bytes). r ≡ (0, body)) (ltb 5 0 || ltb max_body (length body))
      (λ bad. absurd (fits (length body) h bad)) λ fine. refl
  where
    fits : (n : ℕ) → n ≤ max_body → (ltb 5 0 || ltb max_body n) ≡ true → ⊥
    fits n h e = ground arith
Fits-checked_result (failing status body pos low h) =
    if_elim (λ (r : ℕ × Bytes). r ≡ (status, [])) (ltb 5 status || ltb max_body (length body))
      (λ bad. absurd (fits status (length body) low h bad))
      λ fine.
        if_elim (λ (r : ℕ × Bytes). r ≡ (status, [])) (not (status == 0)) (λ other. refl)
          λ ok. absurd (positive status pos ok)
  where
    fits : (s n : ℕ) → s ≤ 5 → n ≤ max_body → (ltb 5 s || ltb max_body n) ≡ true → ⊥
    fits s n l h e = ground arith

    positive : (s : ℕ) → 0 < s → not (s == 0) ≡ false → ⊥
    positive s h e = ground arith
Fits-checked_result (unfit status body h) =
    if_elim (λ (r : ℕ × Bytes). r ≡ (5, [])) (ltb 5 status || ltb max_body (length body))
      (λ bad. refl) λ fine. absurd (large status (length body) h fine)
  where
    large : (s n : ℕ) → (5 < s) ⊎ (max_body < n) → (ltb 5 s || ltb max_body n) ≡ false → ⊥
    large s n h e = ground arith
