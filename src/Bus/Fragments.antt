-- ===== src/Bus/Fragments.antt =====
-- The parts into which server-go/bus/module_runtime.go and module_caller.go cut a body, and the
-- payloads of messages with one part each.
pub mod Payload
use aimee_module_sandbox.Base.{
  ℕ, zero, suc, ◌+◌, ◌-◌, ◌≤◌, ◌<◌, Bool, true, false, List, [], ◌∷◌, ◌++◌, ◌≡◌, ◌≢◌, refl, arith,
  sym, ap, ◌∙◌, ltb, if◌then◌else◌, if_elim, length, take, drop, length-append, length-take,
  length-drop, take-append-drop, All,
}
use mathlib.Core.Path.{subst}
use aimee_module_sandbox.GoString.{Bytes}
use aimee_module_sandbox.Bus.Memory.{write_at}

-- `body[offset:offset+part]` and `more`.
pub record Fragment : Type 0 where
  pub part : Bytes
  pub more : Bool

abbrev pub zeros : ℕ → Bytes
zeros zero = []
zeros (suc n) = 0 ∷ zeros n

pub length-zeros : (n : ℕ) → length (zeros n) ≡ n
length-zeros zero = refl
length-zeros (suc n) = ap suc (length-zeros n)

-- The loop over `offset`, on what is left of the body: each pass takes `chunk` bytes or the rest.
unfoldable pub fragments_from : ℕ → ℕ → Bytes → List Fragment
fragments_from zero chunk rest = []
fragments_from (suc fuel) chunk rest =
    let behind = fragments_from fuel chunk (drop chunk rest) in
    if ltb chunk (length rest)
    then record { part = take chunk rest; more = true } ∷ behind
    else record { part = rest; more = false } ∷ []

-- A pass takes at least one byte, or is the last.
unfoldable pub fragments : ℕ → Bytes → List Fragment
fragments chunk body = fragments_from (suc (length body)) chunk body

-- The fragments of a body: all but the last hold `chunk` bytes and tell of more, and the last holds
-- at most as many.
pub data Cut (chunk : ℕ) : Bytes → List Fragment → Type 0 where
  last :
      (rest : Bytes)
      → length rest ≤ chunk
      → Cut chunk rest (record { part = rest; more = false } ∷ [])
  more_of :
      (part rest : Bytes) (fs : List Fragment)
      → length part ≡ chunk
      → 0 < length rest
      → Cut chunk rest fs
      → Cut chunk (part ++ rest) (record { part = part; more = true } ∷ fs)

fragments_from-Cut :
    (fuel chunk : ℕ) (rest : Bytes)
    → 0 < chunk
    → length rest < fuel
    → Cut chunk rest (fragments_from fuel chunk rest)
unfolding fragments_from
fragments_from-Cut zero chunk rest h k = absurd (omega arith)
fragments_from-Cut (suc fuel) chunk rest h k =
    if_elim (Cut chunk rest) (ltb chunk (length rest))
      (λ long.
        subst
          (λ b. Cut chunk b (
            record { part = take chunk rest; more = true }
            ∷ fragments_from fuel chunk (drop chunk rest)))
          (take-append-drop chunk rest)
          (more_of (take chunk rest) (drop chunk rest) (fragments_from fuel chunk (drop chunk rest))
            (omega (arith, length-take chunk rest, below (length rest) long))
            (omega (arith, length-drop chunk rest, below (length rest) long))
            (fragments_from-Cut fuel chunk (drop chunk rest) h
              (omega (arith, length-drop chunk rest, below (length rest) long)))))
      (λ short. last rest (ground arith))
  where
    below : (n : ℕ) → ltb chunk n ≡ true → chunk < n
    below n e = ground arith

pub fragments-Cut : (chunk : ℕ) (body : Bytes) → 0 < chunk → Cut chunk body (fragments chunk body)
unfolding fragments
fragments-Cut chunk body h = fragments_from-Cut (suc (length body)) chunk body h (omega arith)

-- An empty body is one empty fragment.
pub fragments-nil : (chunk : ℕ) → fragments chunk [] ≡ record { part = []; more = false } ∷ []
unfolding fragments fragments_from
fragments-nil chunk =
    if_elim (λ (fs : List Fragment). fs ≡ record { part = []; more = false } ∷ []) (ltb chunk 0)
      (λ longer. absurd (ground arith)) (λ whole. refl)

-- A part copied behind a header.
pub write_behind :
    (h z w : Bytes)
    → length w ≤ length z
    → write_at (h ++ z) (length h) w ≡ h ++ (w ++ drop (length w) z)
unfolding write_at
write_behind [] [] [] k = refl
write_behind [] (b ∷ z) [] k = refl
write_behind [] [] (x ∷ w) k = absurd (omega arith)
write_behind [] (b ∷ z) (x ∷ w) k = ap (◌∷◌ x) (write_behind [] z w (omega arith))
write_behind (a ∷ h) z [] k = refl
write_behind (a ∷ h) z (x ∷ w) k = ap (◌∷◌ a) (write_behind h z (x ∷ w) k)
