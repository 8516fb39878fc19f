-- ===== src/Learned/Tokens/Shape.antt =====
-- The tokens of `tokenize`, against the text of the command.
use aimee_module_sandbox.Base.{
  ℕ, zero, suc, ◌≤◌, true, false, ◌&&◌, List, [], ◌∷◌, ◌++◌, ◌≡◌, ◌≢◌, refl, arith, length, All,
  Bool-cases, inl, inr, ◌⊎◌, ◌==◌, if◌then◌else◌, ap, ==_iff, sym, ◌∙◌, All-append, if_elim,
}
use mathlib.Core.List.{append-nil, append_assoc}
use aimee_module_sandbox.GoString.{Bytes, one_of, equal}
use aimee_module_sandbox.Learned.Tokens.{
  is_operator, is_blank, is_delim, skip_blanks, word, starts_with_byte, tail, delimiter,
  append_word, after_word, tokens_loop, tokenize,
}

-- A word is not empty and holds no delimiter.
abbrev pub IsWord : Bytes → Type 0
IsWord w = (w ≢ []) × All (λ c. is_delim c ≡ false) w

abbrev pub IsToken : Bytes → Type 0
IsToken t = (is_operator t ≡ true) ⊎ IsWord t

-- A text without its blanks.
abbrev pub without_blanks : Bytes → Bytes
without_blanks [] = []
without_blanks (c ∷ s) = if is_blank c then without_blanks s else c ∷ without_blanks s

abbrev pub joined : List Bytes → Bytes
joined [] = []
joined (t ∷ ts) = t ++ joined ts

joined-append : (xs ys : List Bytes) → joined (xs ++ ys) ≡ joined xs ++ joined ys
joined-append [] ys = refl
joined-append (x ∷ xs) ys =
    ap (◌++◌ x) (joined-append xs ys) ∙ sym (append_assoc x (joined xs) (joined ys))

skip_blanks_lem :
    (s : Bytes)
    → (without_blanks (skip_blanks s) ≡ without_blanks s) × (length (skip_blanks s) ≤ length s)
unfolding skip_blanks
skip_blanks_lem [] = (refl, omega arith)
skip_blanks_lem (c ∷ s) = let ih = skip_blanks_lem s in ground (arith, ih.0, ih.1)

abbrev StopsAtDelim : Bytes → Type 0
StopsAtDelim [] = Unit
StopsAtDelim (c ∷ s) = is_delim c ≡ true

word_lem :
    (s : Bytes)
    → All (λ c. is_delim c ≡ false) (word s).0
      × (without_blanks s ≡ (word s).0 ++ without_blanks (word s).1)
      × (length (word s).1 ≤ length s)
      × StopsAtDelim (word s).1
unfolding word
word_lem [] = (tt, refl, omega arith, tt)
word_lem (c ∷ s) =
    let ih = word_lem s in
    elim (Bool-cases (is_delim c)) [
      | inl stop ↦ rw stop (tt, refl, omega arith, stop)
      | inr on ↦
          let plain : is_blank c ≡ false = ground arith in
          rw on ((on, ih.0), rw plain (ap (◌∷◌ c) ih.1), omega (arith, ih.2), ih.3)
    ]

-- What the switch makes of a delimiter `c` before `s`.
abbrev Emits : ℕ → Bytes → List Bytes × Bytes → Type 0
Emits c s (emitted, left) =
    All IsToken emitted
    × (joined emitted ++ without_blanks left ≡ without_blanks (c ∷ s))
    × (length left ≤ length s)

single :
    (c k : ℕ) (s : Bytes)
    → is_operator (k ∷ []) ≡ true
    → is_blank k ≡ false
    → (c == k) ≡ true
    → Emits c s ((k ∷ []) ∷ [], s)
single c k s op plain e =
    let same : c ≡ k = (==_iff c k).0 e in rw (same, plain) ((inl op, tt), refl, omega arith)

double :
    (c k : ℕ) (s : Bytes)
    → is_operator (k ∷ k ∷ []) ≡ true
    → is_blank k ≡ false
    → (c == k && starts_with_byte k s) ≡ true
    → Emits c s ((k ∷ k ∷ []) ∷ [], tail s)
double c k [] op plain e = absurd (ground arith)
double c k (d ∷ s) op plain e =
    let same : c ≡ k = ground arith in
    let same' : d ≡ k = ground arith in rw (same, same', plain) ((inl op, tt), refl, omega arith)

delimiter-Emits : (c : ℕ) (s : Bytes) → is_delim c ≡ true → Emits c s (delimiter c s)
unfolding delimiter is_operator one_of equal
delimiter-Emits c s h = if_elim (Emits c s) _ (double c b'&' s refl refl) λ n1.
    if_elim (Emits c s) _ (double c b'|' s refl refl) λ n2.
      if_elim (Emits c s) _ (single c b'|' s refl refl) λ n3.
        if_elim (Emits c s) _ (single c b';' s refl refl) λ n4.
          if_elim (Emits c s) _ (single c b'&' s refl refl)
            λ n5. if_elim (Emits c s) _ (single c b'\n' s refl refl) (λ n6. blank n3 n4 n5 n6)
  where
    blank :
        (c == b'|') ≡ false
        → (c == b';') ≡ false
        → (c == b'&') ≡ false
        → (c == b'\n') ≡ false
        → Emits c s ([], s)
    blank n3 n4 n5 n6 =
        let only : is_blank c ≡ true = ground arith in (tt, rw only refl, omega arith)

-- What one round of the loop adds to `tokens` out of `s`.
abbrev Tokenized : List Bytes → Bytes → List Bytes → Type 0
Tokenized tokens s result = All IsToken result × (joined result ≡ joined tokens ++ without_blanks s)

append_word_lem :
    (tokens : List Bytes) (w : Bytes)
    → All IsToken tokens
    → All (λ c. is_delim c ≡ false) w
    → All IsToken (append_word tokens w) × (joined (append_word tokens w) ≡ joined tokens ++ w)
append_word_lem tokens [] h k = (h, sym (append-nil (joined tokens)))
append_word_lem tokens (c ∷ w) h k = (
  All-append IsToken tokens ((c ∷ w) ∷ []) h (inr ((λ e. cc), k), tt),
  joined-append tokens ((c ∷ w) ∷ []) ∙ ap (λ s. joined tokens ++ s) (append-nil (c ∷ w)),
)

-- A round that goes on from the tokens `mid`, given what the later rounds do.
after_word_lem :
    (next : List Bytes → Bytes → List Bytes) (mid : List Bytes) (rest : Bytes) (bound : ℕ)
    → ((ts : List Bytes) (s : Bytes)
        → length s ≤ bound
        → All IsToken ts
        → Tokenized ts s (next ts s))
    → length rest ≤ suc bound
    → StopsAtDelim rest
    → All IsToken mid
    → Tokenized mid rest (after_word next mid rest)
after_word_lem next mid [] bound ih h stop k = (k, sym (append-nil (joined mid)))
after_word_lem next mid (c ∷ s) bound ih h stop k =
    let (shaped, same, shorter) = delimiter-Emits c s stop in
    let emitted = (delimiter c s).0 in
    let left = (delimiter c s).1 in
    let (all, text) =
      ih (mid ++ emitted) left (omega (arith, shorter)) (All-append IsToken mid emitted k shaped) in
    (
      all,
      text
          ∙ ap (λ t. t ++ without_blanks left) (joined-append mid emitted)
          ∙ append_assoc (joined mid) (joined emitted) (without_blanks left)
          ∙ ap (λ t. joined mid ++ t) same,
    )

tokens_loop_lem :
    (fuel : ℕ) (tokens : List Bytes) (s : Bytes)
    → length s ≤ fuel
    → All IsToken tokens
    → Tokenized tokens s (tokens_loop fuel tokens s)
unfolding tokens_loop
tokens_loop_lem zero tokens [] h k = (k, sym (append-nil (joined tokens)))
tokens_loop_lem zero tokens (c ∷ s) h k = absurd (omega arith)
tokens_loop_lem (suc fuel) tokens s h k =
    let (blanks, shorter) = skip_blanks_lem s in
    let (letters, text, shorter', stop) = word_lem (skip_blanks s) in
    let w = (word (skip_blanks s)).0 in
    let rest = (word (skip_blanks s)).1 in
    let (mid, mid_text) = append_word_lem tokens w k letters in
    let (all, result) =
      after_word_lem (tokens_loop fuel) (append_word tokens w) rest fuel (tokens_loop_lem fuel)
        (omega (arith, shorter, shorter')) stop mid in
    (
      all,
      result
          ∙ ap (λ t. t ++ without_blanks rest) mid_text
          ∙ append_assoc (joined tokens) w (without_blanks rest)
          ∙ ap (λ t. joined tokens ++ t) (sym text ∙ blanks),
    )

-- Every token is an operator or a nonempty word without delimiters, and the tokens put together
-- are the command without its blanks.
pub tokenize_lem :
    (cmd : Bytes) → All IsToken (tokenize cmd) × (joined (tokenize cmd) ≡ without_blanks cmd)
unfolding tokenize
tokenize_lem cmd = tokens_loop_lem (length cmd) [] cmd (omega arith) tt
