-- ===== src/Learned/Store/Persisted.antt =====
-- `Record` on the disk, and what a later call reads there.
use aimee_module_sandbox.Base.{
  ℕ, zero, suc, ◌≤◌, ◌<◌, Bool, true, false, ◌||◌, Option, none, some, List, [], ◌∷◌, ◌≡◌, ◌⊎◌, inl,
  inr, refl, arith, ltb, ◌==◌, length, ◌∙◌, sym, ap, if_elim,
}
use mathlib.Core.Path.{subst}
use mathlib.Core.Option.{some-injective}
use aimee_module_sandbox.GoString.Equal.{equal_refl}
use aimee_module_sandbox.GoString.{Bytes, equal}
use aimee_module_sandbox.Learned.Store.{
  Codec, Faults, Disk, Document, StoredMap, Recording, recorded, failed, panicked, max_store_bytes,
  lookup, names_of, union, read, read_sidecar, parse_raw, replace, persist, assign, save, reported,
  record_names,
}
use aimee_module_sandbox.Learned.Store.Recorded.{IsUnion, Unites, union_lem}

-- The document `doc` with the set `names` for `root`, which is the former set grown by `count` of
-- the names asked for, as stored.
abbrev IsStored : Codec → Document → Bytes → List Bytes → List Bytes → ℕ → Option Bytes → Type 0
IsStored json doc root pkgs names count stored =
    (encoded : Bytes) × (json.marshal ((root, names) ∷ doc) ≡ some encoded)
    × (stored ≡ some encoded)
    × IsUnion (lookup doc root) pkgs (names, count)

-- The set of a root behind a call of `Record` with room for it.
abbrev pub grown : Codec → Faults → Disk → Bytes → List Bytes → List Bytes
grown json faults disk root pkgs = (union (names_of (read json faults disk) root) 0 pkgs).0

-- The number of new names in it.
abbrev pub added : Codec → Faults → Disk → Bytes → List Bytes → ℕ
added json faults disk root pkgs = (union (names_of (read json faults disk) root) 0 pkgs).1

-- A call of the operating system that the call makes for the new sidecar fails.
abbrev pub IsFaulty : Faults → Type 0
IsFaulty faults =
    (faults.create_temp ≡ true)
    ⊎ (faults.write ≡ true)
    ⊎ (faults.close ≡ true)
    ⊎ (faults.rename ≡ true)

-- What a call of `Record` reports and leaves: no new name, where the root is empty or there is none,
-- and the same disk; new names, stored, and no temporary file; an error, with new names and a map to
-- put them in that is not encoded or not written, and the same sidecar; or a panic, with new names
-- and no map, and the same disk.
abbrev pub IsRecorded :
    Codec → Faults → Disk → Bytes → List Bytes → ℕ → List Bytes → Recording × Disk → Type 0
IsRecorded json faults disk root pkgs count names (failed, after) =
    (0 < count)
    × ((doc : Document) × (read json faults disk ≡ some doc)
        × ((json.marshal ((root, names) ∷ doc) ≡ none) ⊎ IsFaulty faults))
    × (after.sidecar ≡ disk.sidecar)
    × (faults.remove ≡ false → after.temps ≡ disk.temps)
IsRecorded json faults disk root pkgs count names (panicked, after) =
    (0 < count) × (read json faults disk ≡ none) × (after ≡ disk)
IsRecorded json faults disk root pkgs count names (recorded zero, after) =
    ((length root ≡ 0) ⊎ (count ≡ 0)) × (after ≡ disk)
IsRecorded json faults disk root pkgs count names (recorded (suc n), after) =
    (count ≡ suc n)
    × ((doc : Document) × (read json faults disk ≡ some doc)
        × IsStored json doc root pkgs names (suc n) after.sidecar)
    × (after.temps ≡ disk.temps)

-- The outcomes of `replace`.
abbrev IsReplaced : Faults → Disk → Bytes → Bool × Disk → Type 0
IsReplaced faults disk encoded (false, after) =
    IsFaulty faults
    × (after.sidecar ≡ disk.sidecar)
    × (faults.remove ≡ false → after.temps ≡ disk.temps)
IsReplaced faults disk encoded (true, after) =
    (after.sidecar ≡ some encoded) × (after.temps ≡ disk.temps)

replace-IsReplaced :
    (faults : Faults) (disk : Disk) (encoded : Bytes)
    → IsReplaced faults disk encoded (replace faults disk encoded)
unfolding replace
replace-IsReplaced faults disk encoded = ground arith

module _ (json : Codec) (faults : Faults) (disk : Disk) (root : Bytes) (pkgs : List Bytes) where
  -- `names`, with `n` new ones, is the set for the root.
  abbrev Grows : List Bytes → ℕ → Type 0
  Grows names n = IsUnion (names_of (read json faults disk) root) pkgs (names, n)

  save_lem :
      (names : List Bytes) (n : ℕ) (doc : Document)
      → read json faults disk ≡ some doc
      → Grows names (suc n)
      → IsRecorded json faults disk root pkgs
          (suc n)
          names
          (save json faults disk (suc n) (json.marshal ((root, names) ∷ doc)))
  unfolding names_of
  save_lem names n doc known u = go (json.marshal ((root, names) ∷ doc)) refl
    where
      grows : IsUnion (lookup doc root) pkgs (names, suc n)
      grows = subst (λ m. IsUnion (names_of m root) pkgs (names, suc n)) known u

      go :
          (m : Option Bytes)
          → json.marshal ((root, names) ∷ doc) ≡ m
          → IsRecorded json faults disk root pkgs (suc n) names (save json faults disk (suc n) m)
      go none e = (omega arith, (doc, known, inl e), refl, λ h. refl)
      go (some encoded) e =
          written (replace faults disk encoded) (replace-IsReplaced faults disk encoded)
        where
          written :
              (r : Bool × Disk)
              → IsReplaced faults disk encoded r
              → IsRecorded json faults disk root pkgs (suc n) names (reported (suc n) r)
          written (false, after) h = (omega arith, (doc, known, inr h.0), h.1, h.2)
          written (true, after) h = (refl, (doc, known, (encoded, e, h.0, grows)), h.1)

  assign_lem :
      (names : List Bytes) (n : ℕ) (m : StoredMap)
      → read json faults disk ≡ m
      → Grows names (suc n)
      → IsRecorded json faults disk root pkgs
          (suc n)
          names
          (assign json faults disk m root names (suc n))
  assign_lem names n none known u = (omega arith, known, refl)
  assign_lem names n (some doc) known u = save_lem names n doc known u

  persist_lem :
      (names : List Bytes) (n : ℕ)
      → Grows names n
      → IsRecorded json faults disk root pkgs n names
          (persist json faults disk (read json faults disk) root (names, n))
  persist_lem names zero u = (inr refl, refl)
  persist_lem names (suc n) u =
      if_elim (IsRecorded json faults disk root pkgs (suc n) names) (suc n == 0)
        (λ e. absurd (ground arith)) λ e. assign_lem names n (read json faults disk) refl u

  -- A call of `Record` changes the sidecar only where it reports new names. Then the sidecar holds
  -- the document that was read, with the set of the root grown by as many names as reported, all
  -- of them asked for and of the grammar. Every error leaves the sidecar as it was, and no call
  -- leaves a temporary file unless its removal failed. A call that reports no new name has an empty
  -- root or none to add, and one that reports an error has new names and either their document is
  -- not encoded or a call of the operating system for the new sidecar fails. A call panics only where `read` gives the
  -- nil map and there are new names, and then it leaves the disk as it was; a call with new names
  -- that reports them or an error has read a map.
  pub record_names-IsRecorded :
      IsRecorded json faults disk root pkgs
        (added json faults disk root pkgs)
        (grown json faults disk root pkgs)
        (record_names json faults disk root pkgs)
  unfolding record_names
  record_names-IsRecorded =
      if_elim
        (IsRecorded json faults disk root pkgs (added json faults disk root pkgs)
          (grown json faults disk root pkgs))
        (length root == 0 || length pkgs == 0)
        (λ empty. (nothing_new (length root) pkgs empty, refl))
        λ asked.
          persist_lem (union names 0 pkgs).0 (union names 0 pkgs).1
            (counted (union names 0 pkgs).0 (union names 0 pkgs).1 (union_lem names 0 pkgs))
    where
      names : List Bytes
      names = names_of (read json faults disk) root

      nothing_new :
          (n : ℕ) (pkgs : List Bytes)
          → (n == 0 || length pkgs == 0) ≡ true
          → (n ≡ 0) ⊎ ((union names 0 pkgs).1 ≡ 0)
      nothing_new n [] e = inr (unfold union in refl)
      nothing_new n (p ∷ pkgs) e = inl (ground arith)

      counted :
          (after : List Bytes) (count : ℕ)
          → Unites names 0 pkgs (after, count)
          → IsUnion names pkgs (after, count)
      counted after count (n, sum, u) =
          let same : n ≡ count = omega arith in subst (λ k. IsUnion names pkgs (after, k)) same u

-- encoding/json decodes the encoding of this document as the same map.
abbrev pub IsDecodable : Codec → Document → Type 0
IsDecodable json doc =
    (encoded : Bytes)
    → json.marshal doc ≡ some encoded
    → (decoded : Document) × (json.unmarshal encoded ≡ some (some decoded))
      × ((root : Bytes) → lookup decoded root ≡ lookup doc root)

-- The sidecar is not empty and not above the limit of `read`.
abbrev pub IsReadable : Option Bytes → Type 0
IsReadable none = ⊥
IsReadable (some raw) = (0 < length raw) × (length raw ≤ max_store_bytes)

parse_raw_lem :
    (json : Codec) (faults : Faults) (doc : Document) (raw : Bytes)
    → IsReadable (some raw)
    → faults.read_file ≡ false
    → json.unmarshal raw ≡ some (some doc)
    → parse_raw json faults raw ≡ some doc
parse_raw_lem json faults doc raw h ok e =
    if_elim (λ r. r ≡ some doc) (length raw == 0 || ltb max_store_bytes (length raw))
      (λ bad. absurd (ground arith)) λ fits. rw (ok, e) refl

read_lem :
    (json : Codec) (faults : Faults) (doc : Document) (stored : Option Bytes) (raw : Bytes)
    → stored ≡ some raw
    → IsReadable stored
    → faults.stat ≡ false
    → faults.read_file ≡ false
    → json.unmarshal raw ≡ some (some doc)
    → read_sidecar json faults stored ≡ some doc
unfolding read_sidecar
read_lem json faults doc none raw s h seen ok e = absurd h
read_lem json faults doc (some text) raw s h seen ok e =
    let same : text ≡ raw = some-injective text raw s in
    rw seen (parse_raw_lem json faults doc text h ok (ap json.unmarshal same ∙ e))

-- What a call of `Record` has stored is what a later call reads: after a report of new names,
-- where `doc` is the map that was read, encoding/json decodes what it encoded as the same map, the
-- stored file is not empty and has at most 1 MiB, and the later call can stat and read it, the
-- later call finds the grown set for the root, and for every other root the set that was there.
pub read-record_names :
    (json : Codec) (faults next : Faults) (disk after : Disk) (root : Bytes) (pkgs : List Bytes)
    (n : ℕ) (doc : Document)
    → read json faults disk ≡ some doc
    → IsDecodable json ((root, grown json faults disk root pkgs) ∷ doc)
    → record_names json faults disk root pkgs ≡ (recorded (suc n), after)
    → IsReadable after.sidecar
    → next.stat ≡ false
    → next.read_file ≡ false
    → (names_of (read json next after) root ≡ grown json faults disk root pkgs)
      × ((other : Bytes)
          → equal root other ≡ false
          → names_of (read json next after) other ≡ names_of (read json faults disk) other)
unfolding read lookup names_of
read-record_names json faults next disk after root pkgs n doc known law called readable seen ok =
    let names = grown json faults disk root pkgs in
    let (counted, (old, before, (encoded, marshalled, stored, united)), left) =
      subst (IsRecorded json faults disk root pkgs (added json faults disk root pkgs) names) called
        (record_names-IsRecorded json faults disk root pkgs) in
    let same_doc : old ≡ doc = some-injective old doc (sym before ∙ known) in
    let (decoded, unmarshalled, same) =
      law encoded (ap (λ d. json.marshal ((root, names) ∷ d)) (sym same_doc) ∙ marshalled) in
    let found =
      read_lem json next decoded after.sidecar encoded stored readable seen ok unmarshalled in
    (
      ap (λ d. names_of d root) found ∙ same root ∙ rw (equal_refl root) refl,
      λ other differs.
          ap (λ d. names_of d other) found
          ∙ same other
          ∙ rw differs refl
          ∙ sym (ap (λ d. names_of d other) known),
    )
