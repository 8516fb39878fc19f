-- ===== src/Proxy/Host/Allow.antt =====
-- `proxyHostAllowed`: what an allowlist of ASCII entries lets through.
use aimee_module_sandbox.Base.{
  Any, ◌≤◌, ◌<◌, true, false, List, [], ◌∷◌, ◌≡◌, ◌≢◌, refl, drop, arith, length, All, Bool-cases,
  inl, inr, ◌↔◌, All-drop,
}
use aimee_module_sandbox.GoString.{Bytes, codes, has_prefix, fields, split_fields}
use aimee_module_sandbox.Proxy.Host.{
  entry_allows, some_entry_allows, proxy_host_allowed, proxy_host_max, is_separator,
}
use aimee_module_sandbox.Proxy.Host.Suffix.{IsUnder, suffix_allows_iff}
use aimee_module_sandbox.GoString.Search.{All-fields}
use aimee_module_sandbox.Proxy.Host.Fold.{IsAscii, lower, equal_fold_ascii_iff}

-- An entry `*.suffix` admits what is under a suffix of 1 to 255 bytes, any other entry itself.
pub data Admits (host : Bytes) : Bytes → Type 0 where
  exact :
      {entry : Bytes}
      → has_prefix entry (codes "*.") ≡ false
      → lower host ≡ lower entry
      → Admits host entry
  wildcard :
      {suffix : Bytes}
      → 1 ≤ length suffix
      → length suffix < proxy_host_max
      → IsUnder host suffix
      → Admits host (b'*' ∷ b'.' ∷ suffix)

wildcard_shape :
    (entry : Bytes) → has_prefix entry (codes "*.") ≡ true → entry ≡ b'*' ∷ b'.' ∷ drop 2 entry
unfolding has_prefix
wildcard_shape [] h = cc
wildcard_shape (x ∷ []) h = ground arith
wildcard_shape (x ∷ y ∷ s) h = ground arith

pub entry_allows_complete :
    {host entry : Bytes} → Admits host entry → All IsAscii entry → entry_allows host entry ≡ true
unfolding entry_allows has_prefix
entry_allows_complete {host} {entry} (exact plain e) h =
    rw plain ((equal_fold_ascii_iff host entry h).1 e)
entry_allows_complete {host} (wildcard {suffix} lo hi u) h =
    (suffix_allows_iff host suffix h.1.1).1 (lo, hi, u)

entry_allows_sound :
    (host entry : Bytes) → All IsAscii entry → entry_allows host entry ≡ true → Admits host entry
unfolding entry_allows
entry_allows_sound host entry h e = elim (Bool-cases (has_prefix entry (codes "*."))) [
  | inl wild ↦
      let (lo, hi, u) =
        (suffix_allows_iff host (drop 2 entry) (All-drop _ 2 entry h)).0 (rw wild at e) in
      rw (wildcard_shape entry wild) (wildcard lo hi u)
  | inr plain ↦ exact plain ((equal_fold_ascii_iff host entry h).0 (rw plain at e))
]

some_entry_allows_iff :
    (host : Bytes) (entries : List Bytes)
    → All (All IsAscii) entries
    → (some_entry_allows host entries ≡ true) ↔ Any (Admits host) entries
unfolding some_entry_allows
some_entry_allows_iff host [] h = (λ e. cc, λ a. absurd a)
some_entry_allows_iff host (entry ∷ entries) h =
    let rest = some_entry_allows_iff host entries h.1 in
    (
      λ e. elim (Bool-cases (entry_allows host entry)) [
        | inl here ↦ inl (entry_allows_sound host entry h.0 here)
        | inr refused ↦ inr (rest.0 (rw refused at e))
      ],
      λ a. elim a [
        | inl here ↦ rw (entry_allows_complete here h.0) refl
        | inr later ↦ rw (rest.1 later) (ground arith)
      ],
    )

no_fields : (host : Bytes) → Any (Admits host) (fields is_separator []) → ⊥
unfolding fields split_fields
no_fields host a = a

-- Where the allowlist is ASCII, a host is allowed exactly when it is not empty and some entry of
-- the list admits it.
pub proxy_host_allowed_iff :
    (host allowlist : Bytes)
    → All IsAscii allowlist
    → (proxy_host_allowed host allowlist ≡ true)
      ↔ ((host ≢ []) × Any (Admits host) (fields is_separator allowlist))
proxy_host_allowed_iff [] allowlist h =
    (λ e. unfold proxy_host_allowed in cc, λ a. absurd (a.0 refl))
proxy_host_allowed_iff (c ∷ host) [] h = (
  λ e. absurd (unfold proxy_host_allowed in ground arith),
  λ a. absurd (no_fields (c ∷ host) a.1),
)
proxy_host_allowed_iff (c ∷ host) (d ∷ list) h =
    (λ e. (λ e. cc, entries.0 (rw opened at e)), λ a. rw opened (entries.1 a.1))
  where
    opened :
        proxy_host_allowed (c ∷ host) (d ∷ list)
        ≡ some_entry_allows (c ∷ host) (fields is_separator (d ∷ list))
    opened = unfold proxy_host_allowed in ground arith

    entries :
        (some_entry_allows (c ∷ host) (fields is_separator (d ∷ list)) ≡ true)
        ↔ Any (Admits (c ∷ host)) (fields is_separator (d ∷ list))
    entries = some_entry_allows_iff (c ∷ host) _ (All-fields IsAscii is_separator (d ∷ list) h)
