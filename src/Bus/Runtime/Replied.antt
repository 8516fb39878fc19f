-- ===== src/Bus/Runtime/Replied.antt =====
-- What `replyModuleResult` has sent when it returns without an error.
use aimee_module_sandbox.Base.{
  ℕ, ◌+◌, ◌-◌, ◌≤◌, ◌<◌, true, false, not, ◌||◌, some, List, [], ◌∷◌, ◌++◌, map, ◌≡◌, ◌≢◌, refl,
  arith, sym, ap, ◌∙◌, inr, ltb, leb, ◌==◌, if_elim, length, length-append, length-drop, drop,
}
use mathlib.Core.List.{append_assoc, append-nil}
use aimee_module_sandbox.GoString.{Bytes}
use aimee_module_sandbox.Bus.Message.{module_message_header_len, max_body, message_header}
use aimee_module_sandbox.Bus.Message.Guards.{IsMessage, encode_accepted}
use aimee_module_sandbox.Bus.Fragments.{
  Fragment, fragments, zeros, length-zeros, Cut, last, more_of, fragments-Cut,
}
use aimee_module_sandbox.Bus.Fragments.Payload.{write_part}
use aimee_module_sandbox.Bus.Runtime.{Answer, checked_result}
use aimee_module_sandbox.Bus.Runtime.Reply.{
  Attempt, taken, failed, full, Reply, Link, Outcome, replied, err_module_runtime, err_message,
  err_bus, err_context, err_epoch, waiting, beat, reply_fragment, behind, result_message, copied,
  result_payload, try_reply, reply_fragments, reply_module_result,
}

-- The call of `ReplyFragment` for one fragment.
abbrev pub reply_of : Answer → Fragment → Reply
reply_of a f = record {
  event_kind = a.event_kind;
  correlation_id = a.correlation_id;
  payload = message_header (result_message a (length f.part)) ++ f.part;
  more = f.more;
}

-- A status and a stage that a message can carry.
abbrev pub IsAnswer : Answer → Type 0
IsAnswer a = (a.stage_id ≢ 0) × (a.stage_id < 4294967296) × (a.status ≤ 5)

pub result_message-IsMessage :
    (a : Answer) (n : ℕ) → IsAnswer a → n ≤ max_body → IsMessage (result_message a n)
result_message-IsMessage a n h k = (inr (refl, h.2), h.0, refl, omega arith)

pub result_payload_lem :
    (a : Answer) (part : Bytes)
    → IsAnswer a
    → length part ≤ max_body
    → result_payload a part ≡ some (message_header (result_message a (length part)) ++ part)
unfolding result_payload
result_payload_lem a part h k =
    let m = result_message a (length part) in
    let out = zeros (module_message_header_len + length part) in
    let room = length-zeros (module_message_header_len + length part) in
    ap (copied part)
      (encode_accepted m out (result_message-IsMessage a (length part) h k) (omega (arith, room)))
    ∙ ap some (
        write_part m out part (omega (arith, room))
        ∙ ap (◌++◌ (message_header m ++ part)) (
            empty _ (
              omega (
                arith,
                room,
                length-drop module_message_header_len out,
                length-drop (length part) (drop module_message_header_len out),
              )))
        ∙ append-nil (message_header m ++ part))
  where
    empty : (s : Bytes) → length s ≡ 0 → s ≡ []
    empty [] e = refl
    empty (b ∷ s) e = absurd (omega (arith, e))

reply_fragment-replied :
    (r : Reply) (script : List Attempt) (replies : List Reply) (beats : List ℕ) {l : Link}
    → reply_fragment r script replies beats ≡ (replied, l)
    → l.replies ≡ replies ++ r ∷ []
unfolding reply_fragment
reply_fragment-replied r [] replies beats e = absurd (cc (ap (λ p. p.0) e))
reply_fragment-replied r (taken ∷ script) replies beats e = sym (ap (λ p. p.1.replies) e)
reply_fragment-replied r (failed ∷ script) replies beats e = absurd (cc (ap (λ p. p.0) e))
reply_fragment-replied r (full true changed now ∷ script) replies beats e =
    absurd (cc (ap (λ p. p.0) e))
reply_fragment-replied r (full false true now ∷ script) replies beats e =
    absurd (cc (ap (λ p. p.0) e))
reply_fragment-replied r (full false false now ∷ script) replies beats e =
    reply_fragment-replied r script replies (beat now beats) e

behind-replied :
    (x : Outcome × Link) (rest : Link → Outcome × Link) {l : Link}
    → behind x rest ≡ (replied, l)
    → (m : Link) × (x ≡ (replied, m)) × (rest m ≡ (replied, l))
behind-replied (replied, m) rest e = (m, refl, e)
behind-replied (err_module_runtime, m) rest e = absurd (cc (ap (λ p. p.0) e))
behind-replied (err_message, m) rest e = absurd (cc (ap (λ p. p.0) e))
behind-replied (err_bus, m) rest e = absurd (cc (ap (λ p. p.0) e))
behind-replied (err_context, m) rest e = absurd (cc (ap (λ p. p.0) e))
behind-replied (err_epoch, m) rest e = absurd (cc (ap (λ p. p.0) e))
behind-replied (waiting, m) rest e = absurd (cc (ap (λ p. p.0) e))

-- One pass of the outer loop that is not left.
pass_replied :
    (a : Answer) (f : Fragment) (fs : List Fragment) (l : Link) {l' : Link}
    → IsAnswer a
    → length f.part ≤ max_body
    → reply_fragments a (f ∷ fs) l ≡ (replied, l')
    → (m : Link) × (m.replies ≡ l.replies ++ reply_of a f ∷ [])
      × (reply_fragments a fs m ≡ (replied, l'))
unfolding reply_fragments
pass_replied a f fs l {l'} h fits e =
    let (m, now, later) =
      behind-replied (try_reply a f.more (result_payload a f.part) l) (λ k. reply_fragments a fs k)
        e in
    (m, reply_fragment-replied (reply_of a f) l.attempts l.replies l.beats (sent m now), later)
  where
    sent :
        (m : Link)
        → try_reply a f.more (result_payload a f.part) l ≡ (replied, m)
        → reply_fragment (reply_of a f) l.attempts l.replies l.beats ≡ (replied, m)
    sent m now = ap (λ o. try_reply a f.more o l) (sym (result_payload_lem a f.part h fits)) ∙ now

reply_fragments-replied :
    (a : Answer) {chunk : ℕ} {body : Bytes} {fs : List Fragment} (l : Link) {l' : Link}
    → IsAnswer a
    → Cut chunk body fs
    → length body ≤ max_body
    → reply_fragments a fs l ≡ (replied, l')
    → l'.replies ≡ l.replies ++ map (reply_of a) fs
unfolding reply_fragments
reply_fragments-replied a l h (last rest short) fits e =
    let (m, sent, end) = pass_replied a _ [] l h fits e in ap (λ p. p.1.replies) (sym end) ∙ sent
reply_fragments-replied a l h (more_of part rest fs len pos cut) fits e =
    let size = length-append part rest in
    let (m, sent, later) = pass_replied a _ fs l h (omega (arith, size, fits)) e in
    reply_fragments-replied a m h cut (omega (arith, size, fits)) later
    ∙ ap (λ rs. rs ++ map (reply_of a) fs) sent
    ∙ append_assoc l.replies (reply_of a (record { part = part; more = true }) ∷ [])
        (map (reply_of a) fs)

-- The answer behind the test of its status and body.
abbrev pub checked_answer : Answer → Answer
checked_answer a = record a {
  status = (checked_result a.status a.body).0;
  body = (checked_result a.status a.body).1;
}

pub checked_result-IsAnswer :
    (a : Answer)
    → (a.stage_id ≢ 0)
    → a.stage_id < 4294967296
    → IsAnswer (checked_answer a) × (length (checked_answer a).body ≤ max_body)
checked_result-IsAnswer a h k = let (low, short) = in_range a.status a.body in ((h, k, low), short)
  where
    in_range :
        (status : ℕ) (body : Bytes)
        → ((checked_result status body).0 ≤ 5) × (length (checked_result status body).1 ≤ max_body)
    in_range status body =
        unfold checked_result in
        if_elim InRange (ltb 5 status || ltb max_body (length body))
          (λ bad. (omega arith, omega arith))
          λ fine.
            if_elim InRange (not (status == 0))
              (λ other. (low status (length body) fine, omega arith))
              λ ok. (low status (length body) fine, short status (length body) fine)
      where
        InRange : ℕ × Bytes → Type 0
        InRange r = (r.0 ≤ 5) × (length r.1 ≤ max_body)

        low : (s n : ℕ) → (ltb 5 s || ltb max_body n) ≡ false → s ≤ 5
        low s n e = ground arith

        short : (s n : ℕ) → (ltb 5 s || ltb max_body n) ≡ false → n ≤ max_body
        short s n e = ground arith

pub reply_module_result-replies :
    (budget : ℕ) (a : Answer) (l : Link) {l' : Link}
    → (a.stage_id ≢ 0)
    → a.stage_id < 4294967296
    → reply_module_result budget a l ≡ (replied, l')
    → (module_message_header_len < budget)
      × (l'.replies
          ≡ l.replies
            ++ map
                (reply_of (checked_answer a))
                (fragments (budget - module_message_header_len) (checked_answer a).body))
unfolding reply_module_result
reply_module_result-replies budget a l {l'} h k =
    if_elim Goal (leb budget module_message_header_len) (λ small e. absurd (cc (ap (λ p. p.0) e)))
      λ large e.
        let (fine, fits) = checked_result-IsAnswer a h k in
        let room = above budget large in
        (
          room,
          reply_fragments-replied (checked_answer a) l fine
              (fragments-Cut (budget - module_message_header_len) (checked_answer a).body
                (omega (arith, room)))
              fits e,
        )
  where
    Goal : Outcome × Link → Type 0
    Goal o =
        o ≡ (replied, l')
        → (module_message_header_len < budget)
          × (l'.replies
              ≡ l.replies
                ++ map (reply_of (checked_answer a))
                    (fragments (budget - module_message_header_len) (checked_answer a).body))

    above : (n : ℕ) → leb n module_message_header_len ≡ false → module_message_header_len < n
    above n e = ground arith
