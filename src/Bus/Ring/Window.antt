-- ===== src/Bus/Ring/Window.antt =====
-- A ring as a queue: the slots from the tail on, as many as the counters are apart.
use aimee_module_sandbox.Base.{
  ℕ, zero, suc, ◌+◌, ◌%◌, ◌≤◌, ◌<◌, some, List, [], ◌∷◌, ◌++◌, ◌≡◌, ◌≢◌, refl, arith, sym, ap, ◌∙◌,
  length, leb, ◌==◌, if_elim, ◌↔◌,
}
use mathlib.Core.Path.{ap₂}
use native.Mathlib.Nat.{mod-add-mod, pow-le-pow_right}
use mathlib.Core.Option.{some-injective}
use aimee_module_sandbox.Base.Powers.{mod_word, add-mod-ne, add_pos-mod-ne}
use aimee_module_sandbox.GoString.{Bytes}
use aimee_module_sandbox.Bus.Ring.{
  Ring, slot, slot_offset, store, count, next_word, sub_word, produce_begin, produce_commit,
  consume_begin, consume_commit,
}
use aimee_module_sandbox.Bus.Ring.Attached.{IsRing}
use aimee_module_sandbox.Bus.Ring.Slots.{slot-store_other, slot_place}

abbrev pub window : Ring → ℕ → ℕ → List Bytes
window r i zero = []
window r i (suc n) = slot r i ∷ window r (next_word i) n

-- The slots that are filled and not yet read, the oldest first.
abbrev pub contents : Ring → List Bytes
contents r = window r r.tail (count r)

-- A counter and its place.
next_place : {r : Ring} → IsRing r → (i : ℕ) → next_word i % r.capacity ≡ (i + 1) % r.capacity
next_place {r} v i =
    ap (λ (t : ℕ). next_word i % t) v.power
    ∙ mod_word v.bits (i + 1) (omega (arith, v.few))
    ∙ ap (λ (t : ℕ). (i + 1) % t) (sym v.power)

next_place_add :
    {r : Ring} → IsRing r → (i n : ℕ) → (next_word i + n) % r.capacity ≡ (i + suc n) % r.capacity
next_place_add {r} v i n =
    sym (mod-add-mod (next_word i) r.capacity n)
    ∙ ap (λ (t : ℕ). (t + n) % r.capacity) (next_place v i)
    ∙ mod-add-mod (i + 1) r.capacity n
    ∙ ap (λ (t : ℕ). t % r.capacity) (omega arith)

pub capacity_word : {r : Ring} → IsRing r → r.capacity ≤ 4294967296
capacity_word v =
    omega (arith, v.power, pow-le-pow_right {n = 2} (omega arith) {i = v.bits} {j = 32} v.few)

-- A write at the head leaves the slots in front of it.
window-store :
    {r : Ring} (w : Bytes) (n m i : ℕ)
    → IsRing r
    → length w ≤ r.slot_size
    → n ≤ m
    → m < r.capacity
    → r.head % r.capacity ≡ (i + m) % r.capacity
    → window (store r w) i n ≡ window r i n
window-store {r} w zero m i v len few room e = refl
window-store {r} w (suc n) zero i v len few room e = absurd (omega arith)
window-store {r} w (suc n) (suc m) i v len few room e =
    ap₂ ◌∷◌ (slot-store_other w i v len (λ same. add-mod-ne r.capacity i m room (sym e ∙ sym same)))
      (window-store w n m (next_word i) v len (omega arith) (omega arith)
        (e ∙ sym (next_place_add v i m)))

-- One slot more, at the place behind the window.
window-snoc :
    {r : Ring} (n i h : ℕ)
    → IsRing r
    → h % r.capacity ≡ (i + n) % r.capacity
    → window r i (suc n) ≡ window r i n ++ slot r h ∷ []
window-snoc {r} zero i h v e =
    ap (λ (s : Bytes). s ∷ [])
      (slot_place i h v (ap (λ (t : ℕ). t % r.capacity) (omega arith) ∙ sym e))
window-snoc {r} (suc n) i h v e =
    ap (◌∷◌ (slot r i)) (window-snoc n (next_word i) h v (e ∙ sym (next_place_add v i n)))

-- The head lies as many places behind the tail as the ring holds slots.
head_place : {r : Ring} → IsRing r → r.head % r.capacity ≡ (r.tail + count r) % r.capacity
unfolding count
head_place {r} v =
    let whole : r.head ≡ (r.tail + sub_word r.head r.tail) % 18446744073709551616 =
      omega (arith, v.head_word, v.tail_word) in
    ap (λ (t : ℕ). t % r.capacity) whole
    ∙ ap (λ (t : ℕ). (r.tail + sub_word r.head r.tail) % 18446744073709551616 % t) v.power
    ∙ mod_word v.bits (r.tail + sub_word r.head r.tail) (omega (arith, v.few))
    ∙ ap (λ (t : ℕ). (r.tail + sub_word r.head r.tail) % t) (sym v.power)

-- A write into a slot that is free changes nothing of what the consumer may see.
pub contents-store :
    {r : Ring} (w : Bytes)
    → IsRing r
    → length w ≤ r.slot_size
    → count r < r.capacity
    → contents (store r w) ≡ contents r
unfolding store
contents-store {r} w v len room =
    ap (λ (n : ℕ). window (store r w) r.tail n) same_count
    ∙ window-store w (count r) (count r) r.tail v len (omega arith) room (head_place v)
  where
    same_count : count (store r w) ≡ count r
    same_count = unfold count in refl

-- Nor of the oldest slot, which the consumer may be reading.
pub tail_slot-store :
    {r : Ring} (w : Bytes)
    → IsRing r
    → length w ≤ r.slot_size
    → 0 < count r
    → count r < r.capacity
    → slot (store r w) r.tail ≡ slot r r.tail
tail_slot-store {r} w v len left room =
    slot-store_other w r.tail v len
      (λ same. add_pos-mod-ne r.capacity r.tail (count r) left room (sym (head_place v) ∙ sym same))

window-produce_commit : (r : Ring) (i n : ℕ) → window (produce_commit r) i n ≡ window r i n
unfolding produce_commit slot slot_offset
window-produce_commit r i zero = refl
window-produce_commit r i (suc n) = ap (◌∷◌ (slot r i)) (window-produce_commit r (next_word i) n)

pub count-produce_commit :
    {r : Ring} → IsRing r → count r < r.capacity → count (produce_commit r) ≡ suc (count r)
unfolding count produce_commit
count-produce_commit {r} v room = omega (arith, v.head_word, v.tail_word, capacity_word v)

-- The producer's commit makes the slot at the head visible, behind the others.
pub contents-produce_commit :
    {r : Ring}
    → IsRing r
    → count r < r.capacity
    → contents (produce_commit r) ≡ contents r ++ slot r r.head ∷ []
unfolding produce_commit
contents-produce_commit {r} v room =
    window-produce_commit r r.tail (count (produce_commit r))
    ∙ ap (window r r.tail) (count-produce_commit v room)
    ∙ window-snoc (count r) r.tail r.head v (head_place v)

pub produce_commit-IsRing : {r : Ring} → IsRing r → count r < r.capacity → IsRing (produce_commit r)
unfolding produce_commit
produce_commit-IsRing {r} v room = record {
  bits = v.bits;
  few = v.few;
  power = v.power;
  masked = v.masked;
  behind = v.behind;
  sized = v.sized;
  mapped = v.mapped;
  head_word = omega arith;
  tail_word = v.tail_word;
  counted = omega (arith, count-produce_commit v room);
}

window-consume_commit : (r : Ring) (i n : ℕ) → window (consume_commit r) i n ≡ window r i n
unfolding consume_commit slot slot_offset
window-consume_commit r i zero = refl
window-consume_commit r i (suc n) = ap (◌∷◌ (slot r i)) (window-consume_commit r (next_word i) n)

pub count-consume_commit :
    {r : Ring} → IsRing r → 0 < count r → suc (count (consume_commit r)) ≡ count r
unfolding count consume_commit
count-consume_commit {r} v some_left = omega (arith, v.head_word, v.tail_word)

-- The consumer's commit drops the oldest slot.
pub contents-consume_commit :
    {r : Ring} → IsRing r → 0 < count r → contents r ≡ slot r r.tail ∷ contents (consume_commit r)
unfolding consume_commit
contents-consume_commit {r} v some_left =
    ap (window r r.tail) (sym (count-consume_commit v some_left))
    ∙ ap (◌∷◌ (slot r r.tail))
        (sym (window-consume_commit r (next_word r.tail) (count (consume_commit r))))

pub consume_commit-IsRing : {r : Ring} → IsRing r → 0 < count r → IsRing (consume_commit r)
unfolding consume_commit
consume_commit-IsRing {r} v some_left = record {
  bits = v.bits;
  few = v.few;
  power = v.power;
  masked = v.masked;
  behind = v.behind;
  sized = v.sized;
  mapped = v.mapped;
  head_word = v.head_word;
  tail_word = omega arith;
  counted = omega (arith, count-consume_commit v some_left, v.counted);
}

-- When the two begins return a slot, and which.
pub produce_begin_lem :
    {r : Ring}
    → IsRing r
    → (s : Bytes) → (produce_begin r ≡ some s) ↔ ((count r < r.capacity) × (slot r r.head ≡ s))
unfolding produce_begin
produce_begin_lem {r} v s = (
  if_elim (λ o. o ≡ some s → (count r < r.capacity) × (slot r r.head ≡ s))
      (leb r.capacity (count r)) (λ full e. absurd (cc e))
      (λ room e. (ground arith, some-injective (slot r r.head) s e)),
  λ h.
      if_elim (λ o. o ≡ some s) (leb r.capacity (count r)) (λ full. absurd (ground arith))
        (λ room. ap some h.1),
)

pub consume_begin_lem :
    {r : Ring}
    → IsRing r
    → (s : Bytes) → (consume_begin r ≡ some s) ↔ ((0 < count r) × (slot r r.tail ≡ s))
unfolding consume_begin count
consume_begin_lem {r} v s = (
  if_elim (λ o. o ≡ some s → (0 < sub_word r.head r.tail) × (slot r r.tail ≡ s)) (r.head == r.tail)
      (λ empty e. absurd (cc e))
      (λ left e. (nonzero (ground arith), some-injective (slot r r.tail) s e)),
  λ h.
      if_elim (λ o. o ≡ some s) (r.head == r.tail) (λ empty. absurd (zero_count (ground arith) h.0))
        (λ left. ap some h.1),
)
  where
    nonzero : r.head ≢ r.tail → 0 < sub_word r.head r.tail
    nonzero ne = omega (arith, v.head_word, v.tail_word)

    zero_count : r.head ≡ r.tail → 0 < sub_word r.head r.tail → ⊥
    zero_count e h = omega (arith, v.head_word, v.tail_word)
