-- ===== src/Proxy/Rewrite/Safe.antt =====
-- What `rewriteProxyHead` returns for a head that it does not refuse.
use aimee_module_sandbox.Base.{
  Bool, true, false, List, [], ◌∷◌, ◌++◌, ◌≡◌, ◌≢◌, refl, arith, All, Bool-cases, inl, inr, ap, sym,
  ◌∙◌, All-map,
}
use mathlib.Core.Bool.{false≢true}
use aimee_module_sandbox.GoString.{Bytes, Unicode, one_of, to_lower, is_ascii, lower_byte, equal}
use aimee_module_sandbox.GoString.Equal.{equal_sound}
use aimee_module_sandbox.Proxy.Rewrite.{
  emit, survives, header_name, stripped_names, is_connection, options_of, proxy_header_should_strip,
}
use aimee_module_sandbox.Proxy.Rewrite.Headers.{
  option_name, header_value, IsHeader, AreNominated, Nominated,
}

-- The texts of a list one after the other.
abbrev pub joined : List Bytes → Bytes
joined [] = []
joined (line ∷ lines) = line ++ joined lines

-- `kept` is `lines` without those that the test drops, in order.
pub data Keeps (test : Bytes → Bool) : List Bytes → List Bytes → Type 0 where
  none_left : Keeps test [] []
  keep :
      {line : Bytes} {lines kept : List Bytes}
      → test line ≡ true
      → Keeps test lines kept
      → Keeps test (line ∷ lines) (line ∷ kept)
  skip :
      {line : Bytes} {lines kept : List Bytes}
      → test line ≡ false
      → Keeps test lines kept
      → Keeps test (line ∷ lines) kept

module _ (u : Unicode) where
  pub emit-Keeps :
      (nominated lines : List Bytes)
      → (kept : List Bytes) × Keeps (survives u nominated) lines kept
        × (emit u nominated lines ≡ joined kept)
  unfolding emit
  emit-Keeps nominated [] = ([], none_left, refl)
  emit-Keeps nominated (line ∷ lines) =
      let (kept, keeps, same) = emit-Keeps nominated lines in
      elim (Bool-cases (survives u nominated line)) [
        | inl stays ↦ (line ∷ kept, keep stays keeps, rw stays (ap (◌++◌ line) same))
        | inr goes ↦ (kept, skip goes keeps, rw goes same)
      ]

  -- No option of the connection header `line` names `header`.
  abbrev pub NotNamed : Bytes → Bytes → Type 0
  NotNamed header line =
      is_connection (header_name u line) ≡ true
      → All (λ option. option_name u option ≢ header_name u header)
          (options_of (header_value u line))

  -- A header that may be forwarded: well formed, not one of the hop-by-hop and credential headers,
  -- and not named by any connection header among `lines`.
  pub record IsForwardable (lines : List Bytes) (header : Bytes) : Type 0 where
    pub well_formed : IsHeader u header
    pub no_hop : one_of (header_name u header) stripped_names ≡ false
    pub no_option : All (NotNamed header) lines

  one_of_fixed :
      (name : Bytes) (names : List Bytes)
      → All (λ n. to_lower u n ≡ n) names
      → one_of name names ≡ true
      → to_lower u name ≡ name
  unfolding one_of
  one_of_fixed name [] h e = cc
  one_of_fixed name (n ∷ names) h e = elim (Bool-cases (equal n name)) [
    | inl here ↦ rw (← equal_sound n name here) h.0
    | inr away ↦ one_of_fixed name names h.1 (ground arith)
  ]

  stripped_fixed : All (λ n. to_lower u n ≡ n) stripped_names
  unfolding to_lower is_ascii lower_byte
  stripped_fixed =
      (refl, (refl, (refl, (refl, (refl, (refl, (refl, (refl, (refl, (refl, tt))))))))))

  -- The name is in lower case already when `proxyHeaderShouldStrip` lowers it again.
  should_strip_lower :
      (name : Bytes) → proxy_header_should_strip u name ≡ false → one_of name stripped_names ≡ false
  unfolding proxy_header_should_strip
  should_strip_lower name h = elim (Bool-cases (one_of name stripped_names)) [
    | inr free ↦ free
    | inl hop ↦
        absurd (false≢true (sym h ∙ rw (one_of_fixed name stripped_names stripped_fixed hop) hop))
  ]

  survivor :
      (nominated lines : List Bytes) (header : Bytes)
      → All (AreNominated u nominated) lines
      → IsHeader u header
      → survives u nominated header ≡ true
      → IsForwardable lines header
  unfolding survives
  survivor nominated lines header named h s = record {
    well_formed = h;
    no_hop = should_strip_lower (header_name u header) (ground arith);
    no_option = All-map (AreNominated u nominated) (NotNamed header) unnamed lines named;
  }
    where
      free : one_of (header_name u header) nominated ≡ false
      free = ground arith

      differs :
          (option : Bytes)
          → Nominated u nominated (option_name u option)
          → option_name u option ≢ header_name u header
      differs option m e = absurd (false≢true (sym free ∙ ap (λ n. one_of n nominated) (sym e) ∙ m))

      unnamed : (line : Bytes) → AreNominated u nominated line → NotNamed header line
      unnamed line m c = All-map _ _ differs (options_of (header_value u line)) (m c)

  pub survivors :
      (nominated all lines kept : List Bytes)
      → All (AreNominated u nominated) all
      → All (IsHeader u) lines
      → Keeps (survives u nominated) lines kept
      → All (IsForwardable all) kept
  survivors nominated all lines kept named h none_left = tt
  survivors nominated all lines kept named h (keep s keeps) =
      (survivor nominated all _ named h.0 s, survivors nominated all _ _ named h.1 keeps)
  survivors nominated all lines kept named h (skip s keeps) =
      survivors nominated all _ kept named h.1 keeps
