-- ===== src/Learned/Store/Recorded.antt =====
-- The loop of `Record`: the union of the set of a root and the names asked for.
use aimee_module_sandbox.Base.{
  ℕ, suc, ◌+◌, ◌≤◌, ◌<◌, true, false, List, [], ◌∷◌, ◌++◌, ◌≡◌, refl, arith, leb, if◌then◌else◌,
  length, All, All-map, Bool-cases, inl, inr, ◌∙◌, sym, length-append, if_elim,
}
use mathlib.Core.Path.{subst}
use mathlib.Core.List.{append-nil, append_assoc}
use aimee_module_sandbox.GoString.{Bytes, one_of}
use aimee_module_sandbox.GoString.Equal.{one_of-append, one_of_last, one_of_here, one_of_there}
use aimee_module_sandbox.Learned.Grammar.{package_valid, IsPackageName, package_valid_iff}
use aimee_module_sandbox.Learned.Parse.{learn_max, contains}
use aimee_module_sandbox.Learned.Parse.Safe.{IsDistinct, IsDistinct-snoc, contains_sound}
use aimee_module_sandbox.Learned.Store.{union}

-- A name asked for that is in the grammar.
abbrev pub IsAsked : List Bytes → Bytes → Type 0
IsAsked pkgs name = IsPackageName name × (one_of name pkgs ≡ true)

-- What `Record` makes of the set of a root: it keeps the names, in their order, and puts `count`
-- new ones behind them, all of them asked for and in the grammar; a set without repetitions stays
-- one, a set within the bound stays within it, and below the bound nothing valid is missing.
abbrev pub IsUnion : List Bytes → List Bytes → List Bytes × ℕ → Type 0
IsUnion existing pkgs (names, count) =
    (fresh : List Bytes) × (names ≡ existing ++ fresh)
    × (count ≡ length fresh)
    × All (IsAsked pkgs) fresh
    × (IsDistinct existing → IsDistinct names)
    × (length existing ≤ learn_max → length names ≤ learn_max)
    × (length names < learn_max
        → All (λ name. IsPackageName name → contains names name ≡ true) pkgs)

-- The union over the names left, with the count so far set apart.
abbrev pub Unites : List Bytes → ℕ → List Bytes → List Bytes × ℕ → Type 0
Unites existing added pkgs (names, count) =
    (n : ℕ) × (count ≡ added + n) × IsUnion existing pkgs (names, n)

later :
    (existing : List Bytes) (added : ℕ) (name : Bytes) (pkgs : List Bytes) (r : List Bytes × ℕ)
    → (IsPackageName name
        → (names : List Bytes) → (fresh : List Bytes) → names ≡ existing ++ fresh
        → contains names name ≡ true)
    → Unites existing added pkgs r
    → Unites existing added (name ∷ pkgs) r
later existing added name pkgs (names, count) here
      (n, sum, (fresh, text, few, asked, distinct, small, whole)) =
    (
      n,
      sum,
      (
        fresh,
        text,
        few,
        All-map (IsAsked pkgs) (IsAsked (name ∷ pkgs)) (λ x a. (a.0, one_of_there x name pkgs a.1))
            fresh asked,
        distinct,
        small,
        λ room. ((λ good. here good names fresh text), whole room),
      ),
    )

-- The loop body, branch by branch.
union_invalid :
    (existing : List Bytes) (added : ℕ) (name : Bytes) (pkgs : List Bytes)
    → package_valid name ≡ false
    → union existing added (name ∷ pkgs) ≡ union existing added pkgs
unfolding union
union_invalid existing added name pkgs bad = rw (bad, union) refl

union_valid :
    (existing : List Bytes) (added : ℕ) (name : Bytes) (pkgs : List Bytes)
    → package_valid name ≡ true
    → union existing added (name ∷ pkgs) ≡ (
        if leb learn_max (length existing)
        then (existing, added)
        else if contains existing name
        then union existing added pkgs
        else union (existing ++ name ∷ []) (added + 1) pkgs)
unfolding union
union_valid existing added name pkgs good = elim (Bool-cases (leb learn_max (length existing))) [
  | inl full ↦ rw (good, full, union) refl
  | inr room ↦
      rw (good, room, union)
        (elim (Bool-cases (contains existing name)) [
          | inl known ↦ rw known refl
          | inr new ↦ rw new refl
        ])
]

pub union_lem :
    (existing : List Bytes) (added : ℕ) (pkgs : List Bytes)
    → Unites existing added pkgs (union existing added pkgs)
unfolding union contains
union_lem existing added [] =
    (0, omega arith, ([], sym (append-nil existing), refl, tt, (λ d. d), (λ s. s), (λ room. tt)))
union_lem existing added (name ∷ pkgs) = elim (Bool-cases (package_valid name)) [
  | inr bad ↦ subst Goal (sym (union_invalid existing added name pkgs bad)) (
      later existing added name pkgs (union existing added pkgs) (λ good. absurd (invalid bad good))
        (union_lem existing added pkgs))
  | inl good ↦ subst Goal (sym (union_valid existing added name pkgs good)) (
      if_elim Goal (leb learn_max (length existing))
        (λ full. (
          0,
          omega arith,
          (
            [],
            sym (append-nil existing),
            refl,
            tt,
            (λ d. d),
            (λ s. s),
            (λ room. absurd (ground arith)),
          ),
        ))
        λ room.
          if_elim Goal (contains existing name)
            (λ known.
              later existing added name pkgs (union existing added pkgs)
                (λ g names fresh text. rw text (one_of-append name existing fresh known))
                (union_lem existing added pkgs))
            λ new.
              grown room new ((package_valid_iff name).0 good)
                (union (existing ++ name ∷ []) (added + 1) pkgs)
                (union_lem (existing ++ name ∷ []) (added + 1) pkgs))
]
  where
    Goal : List Bytes × ℕ → Type 0
    Goal r = Unites existing added (name ∷ pkgs) r

    invalid : package_valid name ≡ false → IsPackageName name → ⊥
    invalid bad g = absurd (cc (bad, (package_valid_iff name).1 g))

    grown :
        leb learn_max (length existing) ≡ false
        → contains existing name ≡ false
        → IsPackageName name
        → (r : List Bytes × ℕ) → Unites (existing ++ name ∷ []) (added + 1) pkgs r
        → Unites existing added (name ∷ pkgs) r
    grown room new good (names, count) (n, sum, (fresh, text, few, asked, distinct, small, whole)) =
        let text' : names ≡ existing ++ name ∷ fresh =
          text ∙ append_assoc existing (name ∷ []) fresh in
        (
          suc n,
          omega arith,
          (
            name ∷ fresh,
            text',
            omega arith,
            (
              (good, one_of_here name pkgs),
              All-map (IsAsked pkgs) (IsAsked (name ∷ pkgs))
                  (λ x a. (a.0, one_of_there x name pkgs a.1)) fresh asked,
            ),
            (λ d. distinct (IsDistinct-snoc existing name d (contains_sound existing name new))),
            (λ s. small (ground (arith, length-append existing (name ∷ [])))),
            (λ left. ((λ g. rw text' (one_of_last name existing fresh)), whole left)),
          ),
        )
