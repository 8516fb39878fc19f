-- ===== src/Proxy/Rewrite/Spec.antt =====
-- `rewriteProxyHead` as a whole: the parts of the head that it accepts and the head that it writes.
use aimee_module_sandbox.Base.{
  ℕ, ◌+◌, ◌≤◌, true, Option, none, some, List, [], ◌∷◌, ◌++◌, ◌≡◌, refl, arith, length, All, take,
  drop, ap, sym, ◌∙◌,
}
use mathlib.Core.Option.{some-injective}
use mathlib.Core.Path.{subst, ap₂}
use native.Mathlib.Nat.{le_refl}
use aimee_module_sandbox.GoString.{
  Bytes, Unicode, codes, index_byte, slice, has_prefix, trim_suffix,
}
use aimee_module_sandbox.Proxy.Request.Cut.{Without, index_byte_sound}
use aimee_module_sandbox.Proxy.Rewrite.{
  rewrite_proxy_head, collect, emit, survives, start_line, origin_path, close_header, finish,
  rewrite_request,
}
use aimee_module_sandbox.Proxy.Rewrite.Lines.{header_lines, read_all, collect_lem, collected}
use aimee_module_sandbox.Proxy.Rewrite.Headers.{read_all_lem}
use aimee_module_sandbox.Proxy.Request.Sound.{bind_some, take_self}
use aimee_module_sandbox.Proxy.Rewrite.Safe.{joined, Keeps, IsForwardable, emit-Keeps, survivors}
use aimee_module_sandbox.Proxy.Rewrite.Cuts.{
  head_of, line, head, head_method, head_target, head_version, head_rest, behind_line,
}

module _ (u : Unicode) where
  -- A head that is accepted and what is written for it.
  pub record Rewritten (head out : Bytes) : Type 0 where
    pub method : Bytes
    pub target : Bytes
    pub version : Bytes
    pub rest : Bytes
    pub nominated : List Bytes
    pub kept : List Bytes
    pub shape : head ≡ (method ++ (b' ' ∷ (target ++ (b' ' ∷ version)))) ++ (b'\n' ∷ rest)
    pub first_line : Without b'\n' (method ++ (b' ' ∷ (target ++ (b' ' ∷ version))))
    pub scheme : has_prefix target (codes "http://") ≡ true
    pub long_version : 8 ≤ length (trim_suffix b'\r' version)
    pub all_read : read_all u (header_lines rest) [] ≡ some nominated
    pub chosen : Keeps (survives u nominated) (header_lines rest) kept
    pub forwardable : All (IsForwardable u (header_lines rest)) kept
    pub output :
        out
        ≡ start_line method (origin_path target) (trim_suffix b'\r' version)
          ++ (joined kept ++ close_header)

  finish-some :
      (start rest : Bytes) {out : Bytes}
      → finish u start (collect u (length rest) rest [] []) ≡ some out
      → (nominated : List Bytes) × (read_all u (header_lines rest) [] ≡ some nominated)
        × (out ≡ start ++ (emit u nominated (header_lines rest) ++ close_header))
  finish-some start rest {out} e = split (read_all u (header_lines rest) []) refl
    where
      opened :
          finish u start (collected u (header_lines rest) (read_all u (header_lines rest) []))
          ≡ some out
      opened = rw (collect_lem u (length rest) rest [] [] (le_refl _)) at e

      no_result : ◌≡◌ {A = Option Bytes} none (some out) → ⊥
      no_result e = cc

      split :
          (o : Option (List Bytes))
          → read_all u (header_lines rest) [] ≡ o
          → (nominated : List Bytes) × (read_all u (header_lines rest) [] ≡ some nominated)
            × (out ≡ start ++ (emit u nominated (header_lines rest) ++ close_header))
      split none q = absurd (no_result (rw q at opened))
      split (some nominated) q = (nominated, q, sym (some-injective _ _ (rw q at opened)))

  -- What the guards behind the cuts have checked.
  Rewritten-of :
      (head method target version rest : Bytes) {out : Bytes}
      → head ≡ (method ++ (b' ' ∷ (target ++ (b' ' ∷ version)))) ++ (b'\n' ∷ rest)
      → Without b'\n' (method ++ (b' ' ∷ (target ++ (b' ' ∷ version))))
      → rewrite_request u method target (trim_suffix b'\r' version) rest ≡ some out
      → Rewritten head out
  unfolding rewrite_request
  Rewritten-of head method target version rest {out} shape first_line e =
      let (nominated, all_read, wrote) =
        finish-some (start_line method (origin_path target) (trim_suffix b'\r' version)) rest
          (ground arith) in
      let (keeps, headers, named) = read_all_lem u (header_lines rest) [] nominated all_read in
      let (kept, chosen, same) = emit-Keeps u nominated (header_lines rest) in
      record {
        method = method;
        target = target;
        version = version;
        rest = rest;
        nominated = nominated;
        kept = kept;
        shape = shape;
        first_line = first_line;
        scheme = ground arith;
        long_version = ground arith;
        all_read = all_read;
        chosen = chosen;
        forwardable =
            survivors u nominated (header_lines rest) (header_lines rest) kept named headers chosen;
        output = wrote ∙ rw same refl;
      }

  -- The four cuts at the positions found.
  rewrite_at :
      (whole method target version rest : Bytes) (eol i j : ℕ) {out : Bytes}
      → whole ≡ head_of method target version rest
      → eol ≡ length (line method target version rest)
      → i ≡ length method
      → j ≡ length target
      → rewrite_request u
          (take i whole)
          (slice whole (i + 1) (i + 1 + j))
          (trim_suffix b'\r' (slice whole (i + 1 + j + 1) eol))
          (drop (eol + 1) whole)
        ≡ some out
      → rewrite_request u method target (trim_suffix b'\r' version) rest ≡ some out
  rewrite_at whole method target version rest eol i j shape p q r e =
      sym (
        ap₂ (λ (a b : Bytes). rewrite_request u a b (trim_suffix b'\r' version) rest) is_method
          is_target)
      ∙ sym (
          ap₂
            (λ (c d : Bytes).
              rewrite_request u (take i whole) (slice whole (i + 1) (i + 1 + j))
                (trim_suffix b'\r' c) d)
            is_version is_rest)
      ∙ e
    where
      is_method : take i whole ≡ method
      is_method = rw (shape, q) (head_method method target version rest)

      is_target : slice whole (i + 1) (i + 1 + j) ≡ target
      is_target = rw (shape, q, r) (head_target method target version rest)

      is_version : slice whole (i + 1 + j + 1) eol ≡ version
      is_version = rw (shape, p, q, r) (head_version method target version rest)

      is_rest : drop (eol + 1) whole ≡ rest
      is_rest = rw (shape, p) (head_rest method target version rest)

  rewrite_cut :
      (head : Bytes) (eol i j : ℕ) {out : Bytes}
      → index_byte head b'\n' ≡ some eol
      → index_byte (take eol head) b' ' ≡ some i
      → index_byte (slice head (i + 1) eol) b' ' ≡ some j
      → rewrite_request u
          (take i head)
          (slice head (i + 1) (i + 1 + j))
          (trim_suffix b'\r' (slice head (i + 1 + j + 1) eol))
          (drop (eol + 1) head)
        ≡ some out
      → Rewritten head out
  rewrite_cut head eol i j {out} found found1 found2 e =
      let (l, rest, cut, free) = index_byte_sound head b'\n' eol found in
      let is_line : take eol head ≡ l = rw (← cut.1) (take_self l b'\n' rest cut.0) in
      let (method, behind, cut1, free1) = index_byte_sound (take eol head) b' ' i found1 in
      let l_cut : l ≡ method ++ b' ' ∷ behind = sym is_line ∙ cut1.0 in
      let is_behind : slice head (i + 1) eol ≡ behind =
        behind_line head l rest method behind eol i cut.0 cut.1 l_cut cut1.1 in
      let (target, version, cut2, free2) =
        index_byte_sound (slice head (i + 1) eol) b' ' j found2 in
      let whole : l ≡ line method target version rest =
        l_cut ∙ ap (λ (s : Bytes). method ++ (b' ' ∷ s)) (sym is_behind ∙ cut2.0) in
      let shape : head ≡ head_of method target version rest =
        cut.0 ∙ ap (λ (s : Bytes). s ++ (b'\n' ∷ rest)) whole in
      Rewritten-of head method target version rest shape (subst (Without b'\n') whole free) (
        rewrite_at head method target version rest eol i j shape (sym cut.1 ∙ ap length whole)
          (sym cut1.1) (sym cut2.1) e)

  -- A head that is not refused has the form of an absolute request with headers, and the result is
  -- the request in origin form with the headers that may be forwarded and a closing one.
  pub rewrite_proxy_head_lem :
      (head : Bytes) {out : Bytes} → rewrite_proxy_head u head ≡ some out → Rewritten head out
  unfolding rewrite_proxy_head
  rewrite_proxy_head_lem head {out} e =
      let (eol, found, e1) = bind_some (index_byte head b'\n') _ e in
      let (i, found1, e2) = bind_some (index_byte (take eol head) b' ') _ e1 in
      let (j, found2, e3) = bind_some (index_byte (slice head (i + 1) eol) b' ') _ e2 in
      rewrite_cut head eol i j found found1 found2 e3
