-- ===== src/Learned/Parse/Safe.antt =====
-- What `ParseApt` can return.
use aimee_module_sandbox.Base.{
  ℕ, zero, suc, ◌≤◌, ◌<◌, Bool, true, false, ◌||◌, Option, none, some, List, [], ◌∷◌, ◌++◌, ◌≡◌,
  ◌≢◌, refl, arith, ltb, leb, length, All, Bool-cases, inl, inr, ◌==◌, ap, if_elim, length-append,
  length-take, All-append, ltb→lt, Option-cases,
}
use aimee_module_sandbox.GoString.{Bytes, codes, equal, one_of, index_byte}
use aimee_module_sandbox.GoString.Equal.{equal_refl}
use aimee_module_sandbox.Learned.Grammar.{package_valid, IsPackageName, package_valid_iff}
use aimee_module_sandbox.Learned.Tokens.{is_operator, tokenize}
use aimee_module_sandbox.Learned.Parse.{
  package_name_max, shorten, cut_at, package_name, add_package, contains, has_slash, argument,
  is_flag, takes_value, Cursor, arguments, goes_on, segment_start, next_segment, skip_operator,
  is_apt, segment, round, segments, parse_apt,
}

abbrev pub IsDistinct : List Bytes → Type 0
IsDistinct [] = Unit
IsDistinct (x ∷ xs) = All (λ y. x ≢ y) xs × IsDistinct xs

-- A name that may reach the store.
abbrev pub IsShortName : Bytes → Type 0
IsShortName name = IsPackageName name × (length name < package_name_max)

-- Short names of the grammar, no two alike, at most `max` of them.
abbrev pub IsResult : ℕ → List Bytes → Type 0
IsResult max found = All IsShortName found × IsDistinct found × (length found ≤ max)

length-shorten : (name : Bytes) → length (shorten name) < package_name_max
length-shorten name =
    if_elim (λ s. length s < package_name_max) (leb package_name_max (length name))
      (λ h. omega (arith, length-take 63 name)) λ h. ground arith

pub IsDistinct-snoc :
    (xs : List Bytes) (y : Bytes) → IsDistinct xs → All (λ x. x ≢ y) xs → IsDistinct (xs ++ y ∷ [])
IsDistinct-snoc [] y h k = (tt, tt)
IsDistinct-snoc (x ∷ xs) y h k =
    (All-append (λ z. x ≢ z) xs (y ∷ []) h.0 (k.0, tt), IsDistinct-snoc xs y h.1 k.1)

pub contains_sound :
    (list : List Bytes) (want : Bytes) → contains list want ≡ false → All (λ x. x ≢ want) list
unfolding contains one_of
contains_sound [] want h = tt
contains_sound (x ∷ xs) want h =
    (λ e. absurd (differs (ground arith) e), contains_sound xs want (ground arith))
  where
    differs : equal x want ≡ false → x ≡ want → ⊥
    differs n e = cc (equal_refl want, ap (λ t. equal t want) e, n)

module _ (max : ℕ) where
  add_package_lem :
      (found : List Bytes) (t : Bytes)
      → length found < max
      → IsResult max found
      → IsResult max (add_package found t)
  unfolding add_package package_name
  add_package_lem found t room h =
      if_elim (IsResult max) (has_slash (index_byte t b'/')) (λ s. h)
        λ s.
          if_elim (IsResult max) _
            (λ good. added (package_name t) (short t) (ground arith) (ground arith)) λ bad. h
    where
      short : (t : Bytes) → length (package_name t) < package_name_max
      short t = length-shorten (cut_at t (index_byte t b'='))

      added :
          (name : Bytes)
          → length name < package_name_max
          → package_valid name ≡ true
          → contains found name ≡ false
          → IsResult max (found ++ name ∷ [])
      added name few valid new = (
        All-append IsShortName found (name ∷ []) h.0 (((package_valid_iff name).0 valid, few), tt),
        IsDistinct-snoc found name h.1 (contains_sound found name new),
        omega (arith, length-append found (name ∷ []), h.2, room),
      )

  abbrev IsArgument : Option (Bool × List Bytes) → Type 0
  IsArgument none = Unit
  IsArgument (some (seen, found)) = IsResult max found

  argument_lem :
      (seen : Bool) (found : List Bytes) (t : Bytes)
      → length found < max
      → IsResult max found
      → IsArgument (argument seen found t)
  unfolding argument
  argument_lem false found t room h = elim (Bool-cases (equal t (codes "install"))) [
    | inl e ↦ rw e h
    | inr n ↦
        rw n (elim (Bool-cases (is_flag t)) [ inl flag ↦ rw flag h | inr other ↦ rw other tt ])
  ]
  argument_lem true found t room h = elim (Bool-cases (is_flag t)) [
    | inl flag ↦ rw flag h
    | inr other ↦ rw other (add_package_lem found t room h)
  ]

  arguments_lem :
      (seen : Bool) (found : List Bytes) (before : Option Bytes) (tokens : List Bytes)
      → IsResult max found
      → IsResult max (arguments max seen found before tokens).found
  unfolding arguments
  arguments_lem seen found before [] h = h
  arguments_lem seen found before (t ∷ []) h = elim (Bool-cases (goes_on max found t)) [
    | inr stop ↦ rw stop h
    | inl on ↦ rw on (elim (Bool-cases (takes_value t)) [
      | inl value ↦ rw value h
      | inr plain ↦ rw plain (elim (Option-cases (argument seen found t)) [
        | inl stop ↦ rw stop h
        | inr ((seen', found'), more) ↦
            rw more
              (rw more at (argument_lem seen found t (ltb→lt (length found) max (ground arith)) h))
      ])
    ])
  ]
  arguments_lem seen found before (t ∷ n ∷ rest) h = elim (Bool-cases (goes_on max found t)) [
    | inr stop ↦ rw (stop, arguments) h
    | inl on ↦
        rw (on, arguments)
          (elim (Bool-cases (takes_value t)) [
            | inl value ↦ rw value (elim (Bool-cases (is_operator n)) [
              | inl op ↦ rw op (arguments_lem seen found (some t) (n ∷ rest) h)
              | inr word ↦ rw word (arguments_lem seen found (some n) rest h)
            ])
            | inr plain ↦ rw plain (elim (Option-cases (argument seen found t)) [
              | inl stop ↦ rw stop h
              | inr ((seen', found'), more) ↦ rw more (
                  arguments_lem seen' found' (some t) (n ∷ rest) (
                    rw more at
                      (argument_lem seen found t (ltb→lt (length found) max (ground arith)) h)))
            ])
          ])
  ]

  skip_operator_lem :
      (found : List Bytes) (before : Option Bytes) (tokens : List Bytes)
      → (skip_operator found before tokens).found ≡ found
  skip_operator_lem found before [] = refl
  skip_operator_lem found before (t ∷ rest) =
      if_elim (λ (c : Cursor). c.found ≡ found) (is_operator t) (λ h. refl) λ h. refl

  segment_start_lem :
      (found : List Bytes) (before : Option Bytes) (tokens : List Bytes)
      → (segment_start found before tokens).found ≡ found
  unfolding segment_start
  segment_start_lem found before [] = refl
  segment_start_lem found before (t ∷ rest) =
      let ih = segment_start_lem found (some t) rest in ground (arith, ih)

  next_segment_lem :
      (found : List Bytes) (before : Option Bytes) (tokens : List Bytes)
      → (next_segment found before tokens).found ≡ found
  unfolding next_segment
  next_segment_lem found before [] = refl
  next_segment_lem found before (t ∷ rest) =
      let ih = next_segment_lem found (some t) rest in ground (arith, ih)

  segment_lem :
      (found : List Bytes) (before : Option Bytes) (tokens : List Bytes)
      → IsResult max found
      → IsResult max (segment max found before tokens).found
  unfolding segment
  segment_lem found before [] h = h
  segment_lem found before (t ∷ rest) h =
      if_elim (λ (c : Cursor). IsResult max c.found) (is_apt t)
        (λ apt. rw (skip_operator_lem _ _ _) (arguments_lem false found (some t) rest h))
        λ other. rw (next_segment_lem found before (t ∷ rest)) h

  segments_lem :
      (fuel : ℕ) (found : List Bytes) (before : Option Bytes) (tokens : List Bytes)
      → IsResult max found
      → IsResult max (segments max fuel found before tokens)
  unfolding segments round
  segments_lem zero found before [] h = h
  segments_lem (suc fuel) found before [] h = h
  segments_lem zero found before (t ∷ rest) h = h
  segments_lem (suc fuel) found before (t ∷ rest) h =
      let s = segment_start found before (t ∷ rest) in
      let k =
        segment_lem s.found s.before s.rest (rw (segment_start_lem found before (t ∷ rest)) h) in
      if_elim (IsResult max) (ltb (length found) max) (λ on. segments_lem fuel _ _ _ k) λ stop. h

-- Whatever the command, the names found are names of the grammar shorter than 64 bytes, no two of
-- them alike, and at most `max` of them.
pub parse_apt-IsResult : (max : ℕ) (cmd : Bytes) → IsResult max (parse_apt max cmd)
unfolding parse_apt
parse_apt-IsResult max cmd =
    if_elim (IsResult max) (length cmd == 0 || max == 0) {x = []}
      (λ none_asked. (tt, tt, omega arith))
      λ asked. segments_lem max (length (tokenize cmd)) [] none (tokenize cmd) (tt, tt, omega arith)
