-- ===== src/Learned/Tokens.antt =====
-- `tokenize`, `isDelim` and `isOperator` of server-go/modules/sandbox/sandbox.go.
pub mod Shape
use aimee_module_sandbox.Base.{
  ℕ, zero, suc, ◌+◌, Bool, true, false, not, ◌&&◌, ◌||◌, List, [], ◌∷◌, ◌++◌, ◌==◌, if◌then◌else◌,
  length,
}
use aimee_module_sandbox.GoString.{Bytes, codes, one_of}

abbrev pub operators : List Bytes
operators = codes "&&" ∷ codes "||" ∷ codes "|" ∷ codes ";" ∷ codes "&" ∷ codes "\n" ∷ []

unfoldable pub is_operator : Bytes → Bool
is_operator tok = one_of tok operators

abbrev pub is_blank : ℕ → Bool
is_blank c = c == b' ' || c == b'\t' || c == b'\r'

abbrev pub is_delim : ℕ → Bool
is_delim c =
    c == b' ' || c == b'\t' || c == b'\r' || c == b'\n' || c == b';' || c == b'|' || c == b'&'

-- The first inner loop of `tokenize`: what is left behind the blanks.
unfoldable pub skip_blanks : Bytes → Bytes
skip_blanks [] = []
skip_blanks (c ∷ s) = if is_blank c then skip_blanks s else c ∷ s

-- The second inner loop: `cmd[start:i]`, and what is left.
unfoldable pub word : Bytes → Bytes × Bytes
word [] = ([], [])
word (c ∷ s) = let (w, rest) = word s in if is_delim c then ([], c ∷ s) else (c ∷ w, rest)

abbrev pub starts_with_byte : ℕ → Bytes → Bool
starts_with_byte b [] = false
starts_with_byte b (c ∷ s) = c == b

abbrev pub tail : Bytes → Bytes
tail [] = []
tail (c ∷ s) = s

-- The `switch` at a delimiter `c` before `s`: the token that it emits, if any, and what is left.
unfoldable pub delimiter : ℕ → Bytes → List Bytes × Bytes
delimiter c s =
    if c == b'&' && starts_with_byte b'&' s
    then (codes "&&" ∷ [], tail s)
    else if c == b'|' && starts_with_byte b'|' s
    then (codes "||" ∷ [], tail s)
    else if c == b'|'
    then (codes "|" ∷ [], s)
    else if c == b';'
    then (codes ";" ∷ [], s)
    else if c == b'&'
    then (codes "&" ∷ [], s)
    else if c == b'\n'
    then (codes "\n" ∷ [], s)
    else ([], s)

abbrev pub append_word : List Bytes → Bytes → List Bytes
append_word tokens [] = tokens
append_word tokens (c ∷ w) = tokens ++ (c ∷ w) ∷ []

-- The rest of a round behind the word: the end of the text, or a delimiter and the next round.
abbrev pub after_word : (List Bytes → Bytes → List Bytes) → List Bytes → Bytes → List Bytes
after_word next tokens [] = tokens
after_word next tokens (c ∷ s) =
    let (emitted, left) = delimiter c s in next (tokens ++ emitted) left

-- The outer loop. A round takes a byte at least, so `length cmd` rounds suffice.
unfoldable pub tokens_loop : ℕ → List Bytes → Bytes → List Bytes
tokens_loop zero tokens s = tokens
tokens_loop (suc fuel) tokens s =
    let (w, rest) = word (skip_blanks s) in
    after_word (tokens_loop fuel) (append_word tokens w) rest

unfoldable pub tokenize : Bytes → List Bytes
tokenize cmd = tokens_loop (length cmd) [] cmd
