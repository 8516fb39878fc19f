-- ===== src/Bus/Memory.antt =====
-- The mapped bytes that server-go/bus reads and writes in place: reading `n` bytes at an offset, and
-- writing bytes at one. Both stay inside where the offset and the length do.
use aimee_module_sandbox.Base.{
  ℕ, zero, suc, ◌+◌, ◌≤◌, [], ◌∷◌, ◌≡◌, ◌⊎◌, inl, inr, refl, arith, ap, length, take, drop,
  length-take, length-drop,
}
use aimee_module_sandbox.GoString.{Bytes}

abbrev pub read_at : Bytes → ℕ → ℕ → Bytes
read_at mem off n = take n (drop off mem)

-- A write of a byte outside of the memory changes nothing.
unfoldable pub write_at : Bytes → ℕ → Bytes → Bytes
write_at [] off w = []
write_at (b ∷ mem) off [] = b ∷ mem
write_at (b ∷ mem) zero (x ∷ w) = x ∷ write_at mem 0 w
write_at (b ∷ mem) (suc off) (x ∷ w) = b ∷ write_at mem off (x ∷ w)

pub length-write_at : (mem : Bytes) (off : ℕ) (w : Bytes) → length (write_at mem off w) ≡ length mem
unfolding write_at
length-write_at [] off w = refl
length-write_at (b ∷ mem) off [] = refl
length-write_at (b ∷ mem) zero (x ∷ w) = ap suc (length-write_at mem 0 w)
length-write_at (b ∷ mem) (suc off) (x ∷ w) = ap suc (length-write_at mem off (x ∷ w))

-- What is written is read.
pub read_at-write_at :
    (mem : Bytes) (off : ℕ) (w : Bytes)
    → off + length w ≤ length mem
    → read_at (write_at mem off w) off (length w) ≡ w
unfolding write_at
read_at-write_at mem off [] h = refl
read_at-write_at [] off (x ∷ w) h = absurd (omega arith)
read_at-write_at (b ∷ mem) zero (x ∷ w) h = ap (◌∷◌ x) (read_at-write_at mem 0 w (omega arith))
read_at-write_at (b ∷ mem) (suc off) (x ∷ w) h = read_at-write_at mem off (x ∷ w) (omega arith)

write_at-nil : (mem : Bytes) (off : ℕ) → write_at mem off [] ≡ mem
unfolding write_at
write_at-nil [] off = refl
write_at-nil (b ∷ mem) off = refl

-- Bytes behind a write are not touched.
drop-write_at :
    (mem : Bytes) (off : ℕ) (w : Bytes) (k : ℕ)
    → off + length w ≤ k
    → drop k (write_at mem off w) ≡ drop k mem
unfolding write_at
drop-write_at [] off w k h = refl
drop-write_at (b ∷ mem) off [] k h = refl
drop-write_at (b ∷ mem) zero (x ∷ w) zero h = absurd (omega arith)
drop-write_at (b ∷ mem) zero (x ∷ w) (suc k) h = drop-write_at mem 0 w k (omega arith)
drop-write_at (b ∷ mem) (suc off) (x ∷ w) zero h = absurd (omega arith)
drop-write_at (b ∷ mem) (suc off) (x ∷ w) (suc k) h = drop-write_at mem off (x ∷ w) k (omega arith)

-- Bytes in front of a write are not touched.
read_before :
    (mem : Bytes) (off : ℕ) (w : Bytes) (k n : ℕ)
    → k + n ≤ off
    → read_at (write_at mem off w) k n ≡ read_at mem k n
unfolding write_at
read_before mem off w k zero h = refl
read_before [] off w k (suc n) h = refl
read_before (b ∷ mem) off [] k (suc n) h = refl
read_before (b ∷ mem) zero (x ∷ w) k (suc n) h = absurd (omega arith)
read_before (b ∷ mem) (suc off) (x ∷ w) zero (suc n) h =
    ap (◌∷◌ b) (read_before mem off (x ∷ w) 0 n (omega arith))
read_before (b ∷ mem) (suc off) (x ∷ w) (suc k) (suc n) h =
    read_before mem off (x ∷ w) k (suc n) (omega arith)

pub read_at-write_at_apart :
    (mem : Bytes) (off : ℕ) (w : Bytes) (k n : ℕ)
    → (k + n ≤ off) ⊎ (off + length w ≤ k)
    → read_at (write_at mem off w) k n ≡ read_at mem k n
read_at-write_at_apart mem off w k n (inl before) = read_before mem off w k n before
read_at-write_at_apart mem off w k n (inr behind) = ap (take n) (drop-write_at mem off w k behind)

pub length-read_at :
    (mem : Bytes) (off n : ℕ) → off + n ≤ length mem → length (read_at mem off n) ≡ n
length-read_at mem off n h = omega (arith, length-take n (drop off mem), length-drop off mem)
