-- ===== src/Bus/Runtime/Granted.antt =====
-- When `replyModuleResult` returns: the ring takes a fragment after a while.
use aimee_module_sandbox.Base.{
  ℕ, zero, suc, ◌-◌, ◌%◌, ◌≤◌, ◌<◌, true, false, List, ◌∷◌, ◌++◌, map, ◌≡◌, ◌≢◌, refl, arith, ap,
  ◌∙◌, leb, if_elim, length, length-append,
}
use mathlib.Core.Path.{subst}
use aimee_module_sandbox.GoString.{Bytes}
use aimee_module_sandbox.Bus.Message.{module_message_header_len, max_body, message_header}
use aimee_module_sandbox.Bus.Fragments.{Fragment, fragments, Cut, last, more_of, fragments-Cut}
use aimee_module_sandbox.Bus.Runtime.{Answer}
use aimee_module_sandbox.Bus.Runtime.Checked.{Fits, Fits-checked_result}
use aimee_module_sandbox.Bus.Runtime.Reply.{
  Attempt, taken, full, Reply, Link, Outcome, replied, beat, reply_fragment, behind, try_reply,
  reply_fragments, reply_module_result,
}
use aimee_module_sandbox.Bus.Runtime.Replied.{
  reply_of, IsAnswer, checked_answer, checked_result-IsAnswer, result_payload_lem,
  reply_module_result-replies,
}

-- The ring takes `n` replies, with any pauses in front of each in which the context is not done and
-- the host does not restart.
pub data Grants : ℕ → List Attempt → Type 0 where
  enough : (script : List Attempt) → Grants 0 script
  waits :
      (n now : ℕ) (script : List Attempt)
      → Grants n script
      → Grants n (full false false now ∷ script)
  takes : (n : ℕ) (script : List Attempt) → Grants n script → Grants (suc n) (taken ∷ script)

reply_fragment-granted :
    (r : Reply) (n m : ℕ) (script : List Attempt) (replies : List Reply) (beats : List ℕ)
    → m ≡ suc n
    → Grants m script
    → (l : Link) × (reply_fragment r script replies beats ≡ (replied, l)) × Grants n l.attempts
unfolding reply_fragment
reply_fragment-granted r n zero script replies beats e (enough s) = absurd (omega (arith, e))
reply_fragment-granted r n m script replies beats e (waits k now rest g) =
    reply_fragment-granted r n m rest replies (beat now beats) e g
reply_fragment-granted r n (suc m) script replies beats e (takes k rest g) =
    (_, refl, subst (λ (x : ℕ). Grants x rest) (omega (arith, e)) g)

reply_fragments-granted :
    (a : Answer) {chunk : ℕ} {body : Bytes} {fs : List Fragment} (l : Link)
    → IsAnswer a
    → Cut chunk body fs
    → length body ≤ max_body
    → Grants (length fs) l.attempts
    → (l' : Link) × (reply_fragments a fs l ≡ (replied, l'))
unfolding reply_fragments
reply_fragments-granted a l h (last rest len) fits g =
    let (l', sent, left) =
      reply_fragment-granted (reply_of a (record { part = rest; more = false })) 0 1 l.attempts
        l.replies l.beats refl g in
    (
      l',
      ap (λ x. behind x (λ k. (replied, k)))
          (ap (λ o. try_reply a false o l) (result_payload_lem a rest h fits) ∙ sent),
    )
reply_fragments-granted a l h (more_of part rest fs len pos cut) fits g =
    let size = length-append part rest in
    let (m, sent, left) =
      reply_fragment-granted (reply_of a (record { part = part; more = true })) (length fs)
        (suc (length fs)) l.attempts l.replies l.beats refl g in
    let (l', later) = reply_fragments-granted a m h cut (omega (arith, size, fits)) left in
    (
      l',
      ap (λ x. behind x (λ k. reply_fragments a fs k))
            (ap (λ o. try_reply a true o l)
                (result_payload_lem a part h (omega (arith, size, fits)))
              ∙ sent)
          ∙ later,
    )

-- The reply that carries one fragment of an answer sent with this status: a result of the stage,
-- with the trace of the answer.
abbrev pub part_of_answer : Answer → ℕ → Fragment → Reply
part_of_answer a status f = record {
  event_kind = a.event_kind;
  correlation_id = a.correlation_id;
  payload =
      message_header (record {
        operation = 2;
        status = status;
        stage_id = a.stage_id;
        flags = 0;
        body_len = length f.part % 4294967296;
        deadline_ns = 0;
        trace_id = a.trace_id;
      })
      ++ f.part;
  more = f.more;
}

-- The fragments of `body` are replied, in their order, behind what was replied before, and the call
-- returns without an error.
abbrev pub Sends : ℕ → Answer → Link → ℕ → Bytes → Type 0
Sends budget a l status body =
    Cut (budget - module_message_header_len) body
      (fragments (budget - module_message_header_len) body)
    × ((l' : Link) × (reply_module_result budget a l ≡ (replied, l'))
        × (l'.replies
            ≡ l.replies
              ++ map (part_of_answer a status)
                  (fragments (budget - module_message_header_len) body)))

checked_answer_sent :
    (budget : ℕ) (a : Answer) (l : Link)
    → (a.stage_id ≢ 0)
    → a.stage_id < 4294967296
    → module_message_header_len < budget
    → Grants
        (length (fragments (budget - module_message_header_len) (checked_answer a).body))
        l.attempts
    → Sends budget a l (checked_answer a).status (checked_answer a).body
checked_answer_sent budget a l h k room g =
    let (l', returned) = returns in
    (cut, (l', returned, (reply_module_result-replies budget a l h k returned).1))
  where
    cut :
        Cut
          (budget - module_message_header_len)
          (checked_answer a).body
          (fragments (budget - module_message_header_len) (checked_answer a).body)
    cut =
        fragments-Cut (budget - module_message_header_len) (checked_answer a).body
          (omega (arith, room))

    above : (n : ℕ) → module_message_header_len < n → leb n module_message_header_len ≡ true → ⊥
    above n h e = ground arith

    returns : (l' : Link) × (reply_module_result budget a l ≡ (replied, l'))
    returns =
        unfold reply_module_result in
        let (fine, fits) = checked_result-IsAnswer a h k in
        if_elim (λ (o : Outcome × Link). (l' : Link) × (o ≡ (replied, l')))
          (leb budget module_message_header_len) (λ small. absurd (above budget room small))
          λ large. reply_fragments-granted (checked_answer a) l fine cut fits g

-- An answer for a stage that is not 0 and has 32 bits is sent, and the call returns without an error,
-- where the budget has room for a byte behind the header of 40 bytes, once the ring has taken as
-- many replies as the answer has fragments, however often it was full before, while the context is
-- not done and the host does not restart. The fragments, cut to the budget, make up the body that is
-- sent: that of an answer OK of at most 16 MiB, and none with another status, which is Internal for
-- a status that does not exist and for a longer body. Each is replied once, in its order, with the
-- header of a result.
pub reply_module_result-returns :
    (budget : ℕ) (a : Answer) (l : Link) (status : ℕ) (body : Bytes)
    → (a.stage_id ≢ 0)
    → a.stage_id < 4294967296
    → module_message_header_len < budget
    → Fits a.status a.body status body
    → Grants (length (fragments (budget - module_message_header_len) body)) l.attempts
    → Sends budget a l status body
reply_module_result-returns budget a l status body h k room fits =
    subst
      (λ (r : ℕ × Bytes).
        Grants (length (fragments (budget - module_message_header_len) r.1)) l.attempts
        → Sends budget a l r.0 r.1)
      (Fits-checked_result fits) (checked_answer_sent budget a l h k room)
