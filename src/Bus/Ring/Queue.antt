-- ===== src/Bus/Ring/Queue.antt =====
-- The ring as a queue: what each call of the producer and the consumer does to it.
use aimee_module_sandbox.Base.{
  ℕ, zero, suc, ◌<◌, List, [], ◌∷◌, ◌++◌, ◌≡◌, refl, arith, sym, ap, ◌∙◌, length,
}
use mathlib.Core.Path.{subst}
use aimee_module_sandbox.GoString.{Bytes}
use aimee_module_sandbox.Bus.Ring.{Ring, slot, next_word, count, consume_commit}
use aimee_module_sandbox.Bus.Ring.Attached.{IsRing}
use aimee_module_sandbox.Bus.Ring.Window.{
  window, contents, contents-store, contents-produce_commit, contents-consume_commit,
  produce_begin_lem, consume_begin_lem,
}
use aimee_module_sandbox.Bus.Ring.Delivery.{
  System, Step, begin_produce, fill, commit_produce, begin_consume, commit_consume, Reach,
  IsOrdered, Reach-IsOrdered,
}

-- The calls of the two sides: a slot handed to the producer, bytes written to it, the slot
-- committed; a slot handed to the consumer, the slot released.
pub data Call : Type 0 where
  offers : Call
  writes commits shows releases : Bytes → Call

-- The call of a step, with the bytes of the slot it is about.
abbrev pub call_of : {s t : System} → Step s t → Call
call_of (begin_produce s b e) = offers
call_of (fill s w h len) = writes w
call_of (commit_produce s h) = commits (slot s.ring s.ring.head)
call_of (begin_consume s b e) = shows b
call_of (commit_consume s h) = releases (slot s.ring s.ring.tail)

-- What each call does to a queue of at most `room` slots.
pub data QueueStep (room : ℕ) : Call → List Bytes → List Bytes → Type 0 where
  offer : (q : List Bytes) → length q < room → QueueStep room offers q q
  write : (q : List Bytes) (w : Bytes) → QueueStep room (writes w) q q
  push : (q : List Bytes) (b : Bytes) → length q < room → QueueStep room (commits b) q (q ++ b ∷ [])
  show : (b : Bytes) (q : List Bytes) → QueueStep room (shows b) (b ∷ q) (b ∷ q)
  pop : (b : Bytes) (q : List Bytes) → QueueStep room (releases b) (b ∷ q) q

length-window : (r : Ring) (i n : ℕ) → length (window r i n) ≡ n
length-window r i zero = refl
length-window r i (suc n) = ap suc (length-window r (next_word i) n)

-- Each step of a producer and a consumer on the ring is the step of its call on a queue of as many
-- places as the ring has: a slot is offered to the producer only where there is room; a write leaves
-- the queue as it is; the slot of a commit joins it at the back, and there is room; the consumer is
-- shown the slot at the front; and the slot that is released leaves it at the front.
pub Step-QueueStep :
    {r : Ring} {s t : System}
    → IsRing r
    → Reach r s
    → (step : Step s t)
    → QueueStep s.ring.capacity (call_of step) (contents s.ring) (contents t.ring)
Step-QueueStep v reach step = refine (Reach-IsOrdered v reach) step
  where
    refine :
        {s t : System}
        → IsOrdered s
        → (step : Step s t)
        → QueueStep s.ring.capacity (call_of step) (contents s.ring) (contents t.ring)
    refine o (begin_produce s b e) =
        let free = ((produce_begin_lem o.valid b).0 e).0 in
        offer (contents s.ring)
          (omega (arith, length-window s.ring s.ring.tail (count s.ring), free))
    refine o (fill s w h len) =
        subst (QueueStep s.ring.capacity (writes w) (contents s.ring))
          (sym (contents-store w o.valid len (o.room h))) (write (contents s.ring) w)
    refine o (commit_produce s h) =
        let b = slot s.ring s.ring.head in
        subst (QueueStep s.ring.capacity (commits b) (contents s.ring))
          (sym (contents-produce_commit o.valid (o.room h)))
          (push (contents s.ring) b
            (omega (arith, length-window s.ring s.ring.tail (count s.ring), o.room h)))
    refine o (begin_consume s b e) =
        let (some_left, oldest) = (consume_begin_lem o.valid b).0 e in
        let rest = contents (consume_commit s.ring) in
        let front : contents s.ring ≡ b ∷ rest =
          contents-consume_commit o.valid some_left ∙ ap (λ (x : Bytes). x ∷ rest) oldest in
        subst (λ (q : List Bytes). QueueStep s.ring.capacity (shows b) q q) (sym front)
          (show b rest)
    refine o (commit_consume s h) =
        let b = slot s.ring s.ring.tail in
        subst
          (λ (q : List Bytes).
            QueueStep s.ring.capacity (releases b) q (contents (consume_commit s.ring)))
          (sym (contents-consume_commit o.valid (o.left h)))
          (pop b (contents (consume_commit s.ring)))
