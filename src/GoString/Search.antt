-- ===== src/GoString/Search.antt =====
-- What `fields`, `index_byte` and `last_index_byte` find.
use aimee_module_sandbox.Base.{ℕ, Bool, List, [], ◌∷◌, All, Bool-cases, inl, inr}
use aimee_module_sandbox.GoString.{Bytes, fields, split_fields, flush}

All-flush {κ} :
    (P : ℕ → Type κ) (cur : Bytes) (rest : List Bytes)
    → All P cur
    → All (All P) rest
    → All (All P) (flush cur rest)
All-flush P [] rest h k = k
All-flush P (c ∷ cur) rest h k = (h, k)

All-split_fields {κ} :
    (P : ℕ → Type κ) (sep : ℕ → Bool) (s : Bytes)
    → All P s
    → All P (split_fields sep s).0 × All (All P) (split_fields sep s).1
unfolding split_fields
All-split_fields P sep [] h = (tt, tt)
All-split_fields P sep (x ∷ s) h =
    let rest = All-split_fields P sep s h.1 in
    elim (Bool-cases (sep x)) [
      | inl cut ↦ rw cut (tt, All-flush P _ _ rest.0 rest.1)
      | inr more ↦ rw more ((h.0, rest.0), rest.1)
    ]

-- The bytes of the fields are bytes of the text.
pub All-fields {κ} :
    (P : ℕ → Type κ) (sep : ℕ → Bool) (s : Bytes) → All P s → All (All P) (fields sep s)
unfolding fields
All-fields P sep s h = let rest = All-split_fields P sep s h in All-flush P _ _ rest.0 rest.1
