-- ===== src/Handler/Effects.antt =====
-- What a handler may send back, and when it may touch the store.
use aimee_module_sandbox.Base.{
  ℕ, ◌%◌, ◌≤◌, ◌<◌, Bool, true, false, Option, none, some, List, [], ◌≡◌, ◌≢◌, sym, ap, ◌∙◌, ◌||◌,
  refl, arith, ◌⊎◌, inl, inr, ltb, ◌==◌, if_elim, length,
}
use aimee_module_sandbox.GoString.{Bytes, Unicode}
use aimee_module_sandbox.Learned.Parse.{learn_max, parse_apt}
use aimee_module_sandbox.Learned.Store.{
  Codec, Faults, Disk, Recording, recorded, failed, panicked, record_names,
}
use aimee_module_sandbox.Handler.{
  ok, cancelled, invalid_request, internal, Messages, ObserveRequest, Reply, Handled, replied,
  panics, module_message_max_body, encode, learned, observe, decided, judged, loaded, observed,
  ProxyRequestPolicyRequest, handle_observe, handle_load, handle_proxy_request,
  handle_proxy_address, handle,
}

-- A status that is not `ok` comes with no body. A body has at most 16 MiB, or else 4 GiB or more:
-- then its length, converted to 32 bits, is at most 16 MiB.
abbrev pub IsReply : Reply → Type 0
IsReply (body, ok) =
    (length body ≤ module_message_max_body)
    ⊎ ((4294967296 ≤ length body) × (length body % 4294967296 ≤ module_message_max_body))
IsReply (body, cancelled) = body ≡ []
IsReply (body, invalid_request) = body ≡ []
IsReply (body, internal) = body ≡ []

encode-IsReply : (o : Option Bytes) → IsReply (encode o)
unfolding encode
encode-IsReply none = refl
encode-IsReply (some encoded) =
    if_elim IsReply (ltb module_message_max_body (length encoded % 4294967296)) (λ large. refl)
      λ fits. ground arith

module _ (u : Unicode) (messages : Messages) (is_cancelled : Bool) where
  decided-IsReply :
      (o : Option ProxyRequestPolicyRequest) → IsReply (decided u messages is_cancelled o)
  decided-IsReply none = refl
  decided-IsReply (some r) = if_elim IsReply is_cancelled (λ c. refl) λ c. encode-IsReply _

  judged-IsReply : (o : Option Bytes) → IsReply (judged u messages is_cancelled o)
  judged-IsReply none = refl
  judged-IsReply (some ip) = if_elim IsReply is_cancelled (λ c. refl) λ c. encode-IsReply _

  module _ (json : Codec) (faults : Faults) (disk : Disk) where
    loaded-IsReply :
        (o : Option Bytes) → IsReply (loaded u messages is_cancelled json faults disk o)
    loaded-IsReply none = refl
    loaded-IsReply (some root) =
        if_elim IsReply (length root == 0) (λ e. refl)
          λ e. if_elim IsReply is_cancelled (λ c. refl) λ c. encode-IsReply _

    -- The call of `Record` for the root of a request, with the names parsed from its command.
    abbrev recording : ObserveRequest → Recording × Disk
    recording r = record_names json faults disk r.git_root (parse_apt learn_max r.command)

    -- The disk behind the first stage: as the call of `Record` leaves it, for a request that names a
    -- root and is not cancelled, and else as before.
    abbrev IsObserved : Option ObserveRequest → Disk → Type 0
    IsObserved none after = after ≡ disk
    IsObserved (some r) after =
        (((length r.git_root ≡ 0) ⊎ (is_cancelled ≡ true)) × (after ≡ disk))
        ⊎ ((0 < length r.git_root) × (is_cancelled ≡ false) × (after ≡ (recording r).1))

    -- The call of `Record` for this request panics.
    abbrev Breaks : Option ObserveRequest → Type 0
    Breaks none = ⊥
    Breaks (some r) =
        (0 < length r.git_root) × (is_cancelled ≡ false) × ((recording r).0 ≡ panicked)

    -- A reply as `IsReply` says where `P` does not hold, or a panic where it does, and a disk as `Q`
    -- says.
    abbrev Ends : Type 0 → (Disk → Type 0) → Handled × Disk → Type 0
    Ends P Q (replied reply, after) = IsReply reply × (¬ P) × Q after
    Ends P Q (panics, after) = P × Q after

    learned_lem :
        (P : Type 0) (Q : Disk → Type 0) (parsed : List Bytes) (r : Recording × Disk)
        → (r.0 ≡ panicked → P)
        → (P → r.0 ≡ panicked)
        → Q r.1
        → Ends P Q (learned u messages is_cancelled json faults disk parsed r)
    learned_lem P Q parsed (panicked, after) breaks broke h = (breaks refl, h)
    learned_lem P Q parsed (failed, after) breaks broke h = (refl, λ p. cc (broke p), h)
    learned_lem P Q parsed (recorded added, after) breaks broke h =
        (encode-IsReply _, λ p. cc (broke p), h)

    recording_nothing :
        (root : Bytes) (pkgs : List Bytes)
        → (length pkgs == 0) ≡ true
        → record_names json faults disk root pkgs ≡ (recorded 0, disk)
    unfolding record_names
    recording_nothing root pkgs e =
        if_elim (λ (r : Recording × Disk). r ≡ (recorded 0, disk))
          (length root == 0 || length pkgs == 0) (λ t. refl)
          λ f. absurd (both (length root) (length pkgs) e f)
      where
        both : (m n : ℕ) → (n == 0) ≡ true → (m == 0 || n == 0) ≡ false → ⊥
        both m n e f = ground arith

    observed_lem :
        (o : Option ObserveRequest)
        → Ends (Breaks o) (IsObserved o) (observed u messages is_cancelled json faults disk o)
    unfolding observe
    observed_lem none = (refl, λ b. b, refl)
    observed_lem (some r) =
        if_elim Goal (length r.git_root == 0)
          (λ e.
            let none_named : length r.git_root ≡ 0 = ground arith in
            (refl, λ b. absurd (omega (arith, b.0, none_named)), inl (inl none_named, refl)))
          λ named.
            if_elim Goal is_cancelled
              (λ c. (refl, λ b. absurd (cc (sym c ∙ b.1)), inl (inr c, refl)))
              λ live.
                let root_named : 0 < length r.git_root = ground arith in
                if_elim Goal (length parsed == 0)
                  (λ e.
                    let same = recording_nothing r.git_root parsed e in
                    learned_lem (Breaks (some r)) (IsObserved (some r)) parsed (recorded 0, disk)
                      (λ never. absurd (cc never)) (λ b. sym (ap (λ x. x.0) same) ∙ b.2)
                      (inr (root_named, live, sym (ap (λ x. x.1) same))))
                  λ some_found.
                    learned_lem (Breaks (some r)) (IsObserved (some r)) parsed (recording r)
                      (λ broken. (root_named, live, broken)) (λ b. b.2)
                      (inr (root_named, live, refl))
      where
        Goal : Handled × Disk → Type 0
        Goal = Ends (Breaks (some r)) (IsObserved (some r))

        parsed : List Bytes
        parsed = parse_apt learn_max r.command

    -- The end of a call of the handler, and the disk behind it: the disk is as before, but at the
    -- first stage of a module that has a store, where it is as the request leaves it; and exactly
    -- there, and where the call of `Record` panics, does the handler.
    abbrev pub IsHandled : Bool → ℕ → Bytes → Handled × Disk → Type 0
    IsHandled has_store stage request =
        Ends ((stage ≡ 1) × (has_store ≡ true) × Breaks (messages.decode_observe request)) λ after.
          (((stage ≢ 1) ⊎ (has_store ≡ false)) × (after ≡ disk))
          ⊎ ((stage ≡ 1) × (has_store ≡ true) × IsObserved (messages.decode_observe request) after)

    widen :
        (P P' : Type 0) (Q Q' : Disk → Type 0) (r : Handled × Disk)
        → (P → P')
        → (P' → P)
        → ((after : Disk) → Q after → Q' after)
        → Ends P Q r
        → Ends P' Q' r
    widen P P' Q Q' (replied reply, after) f back g h = (h.0, λ p. h.1 (back p), g after h.2)
    widen P P' Q Q' (panics, after) f back g h = (f h.0, g after h.1)

    -- Whatever the stage and the request, a status other than `ok` comes with no body, and a body has
    -- at most 16 MiB unless it has 4 GiB or more, which the conversion of its length to 32 bits lets
    -- through. The disk stays as it is but at the first stage of a module with a store, where a
    -- request that is decoded, names a root and is not cancelled leaves it as `Record` does, with
    -- the names parsed from its command; and exactly there, where `Record` panics, does the handler.
    pub handle_lem :
        (has_store : Bool) (stage : ℕ) (request : Bytes)
        → IsHandled has_store stage request
            (handle u messages is_cancelled json faults disk has_store stage request)
    unfolding handle handle_observe handle_load handle_proxy_request handle_proxy_address
    handle_lem has_store stage request =
        if_elim Goal (stage == 1)
          (λ first.
            if_elim Goal has_store (λ s. at_first s (ground arith))
              (λ s. (refl, λ p. absurd (cc (sym s ∙ p.1)), inl (inr s, refl))))
          λ n1.
            let later : stage ≢ 1 = not_first stage n1 in
            if_elim Goal (stage == 2)
              (λ e. no_effect later _ (
                if_elim IsReply has_store (λ s. loaded-IsReply (messages.decode_load request))
                  (λ s. refl)))
              λ n2.
                if_elim Goal (stage == 3)
                  (λ e. no_effect later _ (decided-IsReply (messages.decode_proxy_request request)))
                  λ n3.
                    if_elim Goal (stage == 4)
                      (λ e.
                        no_effect later _ (judged-IsReply (messages.decode_proxy_address request)))
                      λ n4. no_effect later ([], invalid_request) refl
      where
        Goal : Handled × Disk → Type 0
        Goal = IsHandled has_store stage request

        not_first : (n : ℕ) → (n == 1) ≡ false → n ≢ 1
        not_first n e = ground arith

        no_effect : stage ≢ 1 → (reply : Reply) → IsReply reply → Goal (replied reply, disk)
        no_effect later reply h = (h, λ p. later p.0, inl (inl later, refl))

        decoded : Option ObserveRequest
        decoded = messages.decode_observe request

        at_first :
            has_store ≡ true
            → stage ≡ 1
            → Goal (observed u messages is_cancelled json faults disk decoded)
        at_first s first =
            widen (Breaks decoded) _ (IsObserved decoded) _
              (observed u messages is_cancelled json faults disk decoded)
              (λ broken. (first, s, broken)) (λ p. p.2) (λ after h. inr (first, s, h))
              (observed_lem decoded)
