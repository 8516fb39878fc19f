-- ===== src/Bus/Ring/Delivery.antt =====
-- Every interleaving of one producer and one consumer on a ring, as a step relation. A call of
-- `ProduceBegin` or `ConsumeBegin` is the instant at which it loads the counter of the other side.
use aimee_module_sandbox.Base.{
  ◌≤◌, ◌<◌, Bool, true, false, some, List, [], ◌∷◌, ◌++◌, ◌≡◌, refl, arith, sym, ap, ◌∙◌, length,
}
use mathlib.Core.List.{append_assoc}
use aimee_module_sandbox.GoString.{Bytes}
use aimee_module_sandbox.Bus.Ring.{
  Ring, slot, slot_offset, store, count, produce_begin, produce_commit, consume_begin,
  consume_commit,
}
use aimee_module_sandbox.Bus.Ring.Attached.{IsRing}
use aimee_module_sandbox.Bus.Ring.Slots.{store-IsRing}
use aimee_module_sandbox.Bus.Ring.Window.{
  contents, contents-store, tail_slot-store, count-produce_commit, count-consume_commit,
  contents-produce_commit, produce_commit-IsRing, contents-consume_commit, consume_commit-IsRing,
  produce_begin_lem, consume_begin_lem,
}

-- The ring, whether each side holds a slot that its begin has returned, and the slots that the
-- producer has committed and the consumer has released so far.
pub record System : Type 0 where
  pub ring : Ring
  pub writing : Bool
  pub reading : Bool
  pub sent : List Bytes
  pub received : List Bytes

pub data Step : System → System → Type 0 where
  begin_produce :
      (s : System) (b : Bytes)
      → produce_begin s.ring ≡ some b
      → Step s (record s { writing = true })
  fill :
      (s : System) (w : Bytes)
      → s.writing ≡ true
      → length w ≤ s.ring.slot_size
      → Step s (record s { ring = store s.ring w })
  commit_produce :
      (s : System)
      → s.writing ≡ true
      → Step s (record s {
        ring = produce_commit s.ring;
        writing = false;
        sent = s.sent ++ slot s.ring s.ring.head ∷ [];
      })
  begin_consume :
      (s : System) (b : Bytes)
      → consume_begin s.ring ≡ some b
      → Step s (record s { reading = true })
  commit_consume :
      (s : System)
      → s.reading ≡ true
      → Step s (record s {
        ring = consume_commit s.ring;
        reading = false;
        received = s.received ++ slot s.ring s.ring.tail ∷ [];
      })

abbrev pub start : Ring → System
start r = record { ring = r; writing = false; reading = false; sent = contents r; received = [] }

pub data Reach (r : Ring) : System → Type 0 where
  here : Reach r (start r)
  next : {s t : System} → Reach r s → Step s t → Reach r t

-- The room in front of the writer and the slot in front of the reader stay; what was received and
-- what the ring holds is what was sent.
pub record IsOrdered (s : System) : Type 0 where
  pub valid : IsRing s.ring
  pub room : s.writing ≡ true → count s.ring < s.ring.capacity
  pub left : s.reading ≡ true → 0 < count s.ring
  pub whole : s.received ++ contents s.ring ≡ s.sent

count-store : (r : Ring) (w : Bytes) → count (store r w) ≡ count r
unfolding count store
count-store r w = refl

capacity-store : (r : Ring) (w : Bytes) → (store r w).capacity ≡ r.capacity
unfolding store
capacity-store r w = refl

tail-store : (r : Ring) (w : Bytes) → (store r w).tail ≡ r.tail
unfolding store
tail-store r w = refl

capacity-produce_commit : (r : Ring) → (produce_commit r).capacity ≡ r.capacity
unfolding produce_commit
capacity-produce_commit r = refl

Step-IsOrdered : {s t : System} → Step s t → IsOrdered s → IsOrdered t
Step-IsOrdered (begin_produce s b e) o = record {
  valid = o.valid;
  room = λ w. ((produce_begin_lem o.valid b).0 e).0;
  left = o.left;
  whole = o.whole;
}
Step-IsOrdered (fill s w h len) o = record {
  valid = store-IsRing w o.valid;
  room = λ w'. omega (arith, count-store s.ring w, capacity-store s.ring w, o.room h);
  left = λ r. omega (arith, count-store s.ring w, o.left r);
  whole = ap (◌++◌ s.received) (contents-store w o.valid len (o.room h)) ∙ o.whole;
}
Step-IsOrdered (commit_produce s h) o = record {
  valid = produce_commit-IsRing o.valid (o.room h);
  room = λ w. absurd (cc w);
  left = λ r. omega (arith, count-produce_commit o.valid (o.room h));
  whole =
      ap (◌++◌ s.received) (contents-produce_commit o.valid (o.room h))
      ∙ sym (append_assoc s.received (contents s.ring) (slot s.ring s.ring.head ∷ []))
      ∙ ap (λ (l : List Bytes). l ++ slot s.ring s.ring.head ∷ []) o.whole;
}
Step-IsOrdered (begin_consume s b e) o = record {
  valid = o.valid;
  room = o.room;
  left = λ r. ((consume_begin_lem o.valid b).0 e).0;
  whole = o.whole;
}
Step-IsOrdered (commit_consume s h) o = record {
  valid = consume_commit-IsRing o.valid (o.left h);
  room = λ w.
      omega
        (arith, count-consume_commit o.valid (o.left h), capacity-consume_commit s.ring, o.room w);
  left = λ r. absurd (cc r);
  whole =
      append_assoc s.received (slot s.ring s.ring.tail ∷ []) (contents (consume_commit s.ring))
      ∙ ap (◌++◌ s.received) (sym (contents-consume_commit o.valid (o.left h)))
      ∙ o.whole;
}
  where
    capacity-consume_commit : (r : Ring) → (consume_commit r).capacity ≡ r.capacity
    capacity-consume_commit r = unfold consume_commit in refl

pub Reach-IsOrdered : {r : Ring} {s : System} → IsRing r → Reach r s → IsOrdered s
Reach-IsOrdered v here = record {
  valid = v;
  room = λ w. absurd (cc w);
  left = λ w. absurd (cc w);
  whole = refl;
}
Reach-IsOrdered v (next before step) = Step-IsOrdered step (Reach-IsOrdered v before)

-- However the calls of one producer and one consumer interleave, the ring stays well formed, and
-- what the consumer has released, followed by what the ring holds, is what the producer has
-- committed, in that order: no slot is lost, doubled, or read before it is committed.
pub delivered_in_order :
    {r : Ring} {s : System}
    → IsRing r
    → Reach r s
    → IsRing s.ring × (s.received ++ contents s.ring ≡ s.sent)
delivered_in_order v reach = let o = Reach-IsOrdered v reach in (o.valid, o.whole)

-- While the consumer holds a slot, no step changes the bytes it reads there, whatever the producer
-- writes and commits meanwhile.
pub held_slot_kept :
    {r : Ring} {s t : System}
    → IsRing r
    → Reach r s
    → Step s t
    → s.reading ≡ true
    → t.reading ≡ true
    → slot t.ring t.ring.tail ≡ slot s.ring s.ring.tail
held_slot_kept v reach step = held (Reach-IsOrdered v reach) step
  where
    held :
        {s t : System}
        → IsOrdered s
        → Step s t
        → s.reading ≡ true
        → t.reading ≡ true
        → slot t.ring t.ring.tail ≡ slot s.ring s.ring.tail
    held o (begin_produce s b e) h k = refl
    held o (fill s w full len) h k =
        ap (slot (store s.ring w)) (tail-store s.ring w)
        ∙ tail_slot-store w o.valid len (o.left h) (o.room full)
    held o (commit_produce s full) h k = unfold produce_commit slot slot_offset in refl
    held o (begin_consume s b e) h k = refl
    held o (commit_consume s full) h k = absurd (cc k)
