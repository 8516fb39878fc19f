-- ===== src/Base/Maps.antt =====
-- Go maps with integer keys, as association lists: a key stands once in what `put` and `remove` make
-- of the empty map. `occurs` counts a key.
use Prim.Native.Nat.{ℕ, suc, ◌+◌, ◌≤◌, ◌<◌}
use mathlib.Core.Path.{◌≡◌, refl, ap, sym}
use mathlib.Core.Path.{subst, ap₂}
use mathlib.Core.Option.{some-injective}
use mathlib.Core.Logic.{◌≢◌, inl, inr}
use mathlib.Core.Bool.{true, false}
use mathlib.Core.List.{List, [], ◌∷◌, ◌++◌}
use mathlib.Core.Option.{Option, none, some}
use native.Mathlib.Omega.{arith}
use aimee_module_sandbox.Base.Tests.{◌==◌, if◌then◌else◌, if_elim, Bool-cases}
use aimee_module_sandbox.Base.Lists.{length, All}

abbrev pub KeyMap {ℓ} : Type ℓ → Type ℓ
KeyMap A = List (ℕ × A)

module _ {ℓ} {A : Type ℓ} where
  unfoldable pub find : ℕ → KeyMap A → Option A
  find k [] = none
  find k ((j, a) ∷ m) = let rest = find k m in if k == j then some a else rest

  unfoldable pub remove : ℕ → KeyMap A → KeyMap A
  remove k [] = []
  remove k ((j, a) ∷ m) = let rest = remove k m in if k == j then rest else (j, a) ∷ rest

  abbrev pub put : ℕ → A → KeyMap A → KeyMap A
  put k a m = (k, a) ∷ remove k m

  -- A change of the value at a key, where there is one.
  unfoldable pub change : (A → A) → ℕ → KeyMap A → KeyMap A
  change f k [] = []
  change f k ((j, a) ∷ m) = (j, (if k == j then f a else a)) ∷ change f k m

  abbrev pub keys : KeyMap A → List ℕ
  keys [] = []
  keys ((j, a) ∷ m) = j ∷ keys m

==→≡ : (x y : ℕ) → (x == y) ≡ true → x ≡ y
==→≡ x y h = ground arith

==→≢ : (x y : ℕ) → (x == y) ≡ false → x ≢ y
==→≢ x y h = ground arith

-- How often a number stands in a list.
unfoldable pub occurs : ℕ → List ℕ → ℕ
occurs k [] = 0
occurs k (j ∷ l) = let rest = occurs k l in if k == j then suc rest else rest

pub occurs_new :
    (c : ℕ) (l : List ℕ)
    → occurs c l ≡ 0
    → ((k : ℕ) → occurs k l ≤ 1)
    → (k : ℕ) → occurs k (c ∷ l) ≤ 1
unfolding occurs
occurs_new c l h once k =
    if_elim (λ (n : ℕ). n ≤ 1) (k == c)
      (λ same. subst (λ (x : ℕ). suc (occurs x l) ≤ 1) (sym (==→≡ k c same)) (omega (arith, h)))
      (λ other. once k)

pub occurs-append : (k : ℕ) (l r : List ℕ) → occurs k (l ++ r) ≡ occurs k l + occurs k r
unfolding occurs
occurs-append k [] r = omega arith
occurs-append k (j ∷ l) r = ground (arith, occurs-append k l r)

pub occurs-cons : (c k : ℕ) (l : List ℕ) → occurs c (k ∷ l) ≡ occurs c (k ∷ []) + occurs c l
unfolding occurs
occurs-cons c k l = ground arith

pub occurs_self : (k : ℕ) → occurs k (k ∷ []) ≡ 1
unfolding occurs
occurs_self k = ground arith

module _ {ℓ} {A : Type ℓ} where
  pub length-remove : (k : ℕ) (m : KeyMap A) → length (remove k m) + occurs k (keys m) ≡ length m
  unfolding remove occurs
  length-remove k [] = omega arith
  length-remove k ((j, a) ∷ m) = ground (arith, length-remove k m)

  pub remove_absent : (k : ℕ) (m : KeyMap A) → find k m ≡ none → remove k m ≡ m
  unfolding find remove
  remove_absent k [] h = refl
  remove_absent k ((j, a) ∷ m) h = ground (arith, remove_absent k m)

  pub occurs_absent : (k : ℕ) (m : KeyMap A) → find k m ≡ none → occurs k (keys m) ≡ 0
  unfolding find occurs
  occurs_absent k [] h = refl
  occurs_absent k ((j, a) ∷ m) h = ground (arith, occurs_absent k m)

  pub occurs-remove_self : (k : ℕ) (m : KeyMap A) → occurs k (keys (remove k m)) ≡ 0
  unfolding remove occurs
  occurs-remove_self k [] = refl
  occurs-remove_self k ((j, a) ∷ m) = ground (arith, occurs-remove_self k m)

  pub occurs-remove_other :
      (k c : ℕ) (m : KeyMap A) → c ≢ k → occurs c (keys (remove k m)) ≡ occurs c (keys m)
  unfolding remove occurs
  occurs-remove_other k c [] ne = refl
  occurs-remove_other k c ((j, a) ∷ m) ne = ground (arith, occurs-remove_other k c m ne)

  pub keys-change : (f : A → A) (k : ℕ) (m : KeyMap A) → keys (change f k m) ≡ keys m
  unfolding change
  keys-change f k [] = refl
  keys-change f k ((j, a) ∷ m) = ap (◌∷◌ j) (keys-change f k m)

  pub length-keys : (m : KeyMap A) → length (keys m) ≡ length m
  length-keys [] = refl
  length-keys ((j, a) ∷ m) = ap suc (length-keys m)

  pub find-put_self : (k : ℕ) (a : A) (m : KeyMap A) → find k (put k a m) ≡ some a
  unfolding find
  find-put_self k a m = ground arith

  pub All-remove {κ} : (P : ℕ × A → Type κ) (k : ℕ) (m : KeyMap A) → All P m → All P (remove k m)
  unfolding remove
  All-remove P k [] h = h
  All-remove P k ((j, a) ∷ m) h =
      if_elim (All P) (k == j) (λ same. All-remove P k m h.1) (λ other. (h.0, All-remove P k m h.1))

  pub All-find {κ} :
      (P : ℕ × A → Type κ) (k : ℕ) (m : KeyMap A) {a : A} → All P m → find k m ≡ some a → P (k, a)
  unfolding find
  All-find P k [] h e = absurd (cc e)
  All-find P k ((j, b) ∷ m) {a} h e =
      if_elim (λ o. o ≡ some a → P (k, a)) (k == j)
        (λ same q.
          subst P (ap₂ (λ (x : ℕ) (y : A). (x, y)) (sym (==→≡ k j same)) (some-injective b a q))
            h.0)
        (λ other q. All-find P k m h.1 q) e

  pub All-change {κ} :
      (P : ℕ × A → Type κ) (f : A → A) (k : ℕ) (m : KeyMap A)
      → ((j : ℕ) (a : A) → P (j, a) → P (j, f a))
      → All P m
      → All P (change f k m)
  unfolding change
  All-change P f k [] g h = h
  All-change P f k ((j, a) ∷ m) g h = (
    if_elim (λ (b : A). P (j, b)) (k == j) (λ same. g j a h.0) (λ other. h.0),
    All-change P f k m g h.1,
  )

  pub occurs_present : (k : ℕ) (m : KeyMap A) {a : A} → find k m ≡ some a → 0 < occurs k (keys m)
  unfolding find occurs
  occurs_present k [] h = absurd (cc h)
  occurs_present k ((j, b) ∷ m) {a} h =
      if_elim (λ (n : ℕ). 0 < n) (k == j) (λ same. omega arith)
        (λ other. occurs_present k m (tail other h))
    where
      tail : (k == j) ≡ false → (if k == j then some b else find k m) ≡ some a → find k m ≡ some a
      tail other e = ground arith

  pub occurs-put_self : (k : ℕ) (a : A) (m : KeyMap A) → occurs k (keys (put k a m)) ≡ 1
  unfolding occurs
  occurs-put_self k a m = ground (arith, occurs-remove_self k m)

  pub occurs-put_other :
      (k c : ℕ) (a : A) (m : KeyMap A) → c ≢ k → occurs c (keys (put k a m)) ≡ occurs c (keys m)
  unfolding occurs
  occurs-put_other k c a m ne = ground (arith, occurs-remove_other k c m ne)

  -- A key that stands once is taken out once.
  pub remove_one :
      (k : ℕ) (m : KeyMap A)
      → occurs k (keys m) ≡ 1
      → (c : ℕ) → occurs c (keys (remove k m)) + occurs c (k ∷ []) ≡ occurs c (keys m)
  unfolding occurs
  remove_one k m h c = elim (Bool-cases (c == k)) [
    | inl e ↦
        subst (λ (x : ℕ). occurs x (keys (remove k m)) + occurs x (k ∷ []) ≡ occurs x (keys m))
          (sym (==→≡ c k e)) (ground (arith, occurs-remove_self k m))
    | inr ne ↦ ground (arith, occurs-remove_other k c m (==→≢ c k ne))
  ]
