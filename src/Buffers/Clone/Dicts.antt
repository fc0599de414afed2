-- ===== src/Buffers/Clone/Dicts.antt =====
-- The clone that the recursive walk makes of a dict.
use cositos.Base.{◌≡◌, ◌||◌, Option, none, some, if◌then◌else◌, Bool-cases, inl, inr}
use cositos.Value.{Key, fresh, Value, bytes, seq, dict, Fields, end, field, Ident}
use cositos.Value.Dict
use cositos.Value.Dict.{lookup, Distinct, Apart}
use cositos.Buffers.Recursive.{absorb, rebuild, update, rebuild_fields}
use cositos.Buffers.Strip.{holds, holds_fields, in_dict, strip, strip_fields, inner, strip_same}
use cositos.Value.Dict.{insert-append, remove-append, Apart-append_one}
use cositos.Buffers.Clone.Lists.{ClonesAs}

abbrev pub cloned_dict : Fields → Option Value
cloned_dict fs = some (dict fresh fs)

-- Once the dict is cloned, the walk of the entries that are left strips them in the clone.
abbrev pub StripsEntries : Value → Fields → Type 0
StripsEntries self fs =
    (ps : Fields)
    → Apart ps fs
    → rebuild_fields self fs (cloned_dict (Dict.append ps fs))
      ≡ cloned_dict (Dict.append ps (strip_fields fs))

module _ (ps : Fields) (k : Key) (fs : Fields) (new : lookup k fs ≡ none)
    (apart : Apart ps fs) where
  -- One entry on: `w` has been written in its place.
  onward_entry :
      (self v w : Value)
      → lookup k ps ≡ none
      → StripsEntries self fs
      → rebuild_fields self fs (cloned_dict (Dict.insert k w (Dict.append ps (field k v fs))))
        ≡ cloned_dict (Dict.append ps (field k w (strip_fields fs)))
  onward_entry self v w absent rest =
      rw
        (
          insert-append ps k v w fs absent,
          ← Dict.append_one ps k w fs,
          ← Dict.append_one ps k w (strip_fields fs),
        )
        (rest (Dict.append ps (field k w end)) (Apart-append_one ps k w fs new apart))

  keep_entry :
      (self v : Value)
      → StripsEntries self fs
      → rebuild_fields self fs (cloned_dict (Dict.append ps (field k v fs)))
        ≡ cloned_dict (Dict.append ps (field k v (strip_fields fs)))
  keep_entry self v rest =
      rw (← Dict.append_one ps k v fs, ← Dict.append_one ps k v (strip_fields fs))
        (rest (Dict.append ps (field k v end)) (Apart-append_one ps k v fs new apart))

  drop_entry :
      (self v : Value)
      → lookup k ps ≡ none
      → StripsEntries self fs
      → rebuild_fields self fs (cloned_dict (Dict.remove k (Dict.append ps (field k v fs))))
        ≡ cloned_dict (Dict.append ps (strip_fields fs))
  drop_entry self v absent rest = rw (remove-append ps k v fs absent) (rest ps apart)

  absorb_entry :
      (self v : Value)
      → lookup k ps ≡ none
      → StripsEntries self fs
      → rebuild_fields self fs (
          absorb self k
            (if inner v then some (strip v) else none)
            (cloned_dict (Dict.append ps (field k v fs))))
        ≡ cloned_dict (Dict.append ps (field k (strip v) (strip_fields fs)))
  absorb_entry self v absent rest = elim (Bool-cases (inner v)) [
    | inl changed ↦ rw changed (onward_entry self v (strip v) absent rest)
    | inr same ↦ rw (same, strip_same v same) (keep_entry self v rest)
  ]

  pub step_entry :
      (self v : Value)
      → lookup k ps ≡ none
      → ClonesAs v
      → StripsEntries self fs
      → rebuild_fields self fs (update self k v (cloned_dict (Dict.append ps (field k v fs))))
        ≡ cloned_dict (Dict.append ps (in_dict k v (strip v) (strip_fields fs)))
  unfolding rebuild strip
  step_entry self (bytes b) absent child rest = drop_entry self (bytes b) absent rest
  step_entry self (seq s i ys) absent child rest =
      rw child (absorb_entry self (seq s i ys) absent rest)
  step_entry self (dict i gs) absent child rest =
      rw child (absorb_entry self (dict i gs) absent rest)
  step_entry self v absent child rest = keep_entry self v rest

-- The same from a dict that has no clone yet: the first change makes it.
abbrev pub ClonesEntries : Fields → Type 0
ClonesEntries fs =
    (i : Ident) (ps : Fields)
    → Apart ps fs
    → rebuild_fields (dict i (Dict.append ps fs)) fs none
      ≡ (if holds_fields fs then cloned_dict (Dict.append ps (strip_fields fs)) else none)

module _ (i : Ident) (ps : Fields) (k : Key) (fs : Fields) (new : lookup k fs ≡ none)
    (apart : Apart ps fs) where
  pass_entry :
      (v : Value)
      → ClonesEntries fs
      → rebuild_fields (dict i (Dict.append ps (field k v fs))) fs none ≡ (
          if holds_fields fs
          then cloned_dict (Dict.append ps (field k v (strip_fields fs)))
          else none)
  pass_entry v rest =
      rw (← Dict.append_one ps k v fs, ← Dict.append_one ps k v (strip_fields fs))
        (rest i (Dict.append ps (field k v end)) (Apart-append_one ps k v fs new apart))

  absorb_first_entry :
      (v : Value)
      → lookup k ps ≡ none
      → ((self : Value) → StripsEntries self fs)
      → ClonesEntries fs
      → rebuild_fields (dict i (Dict.append ps (field k v fs))) fs (
          absorb
            (dict i (Dict.append ps (field k v fs)))
            k
            (if inner v then some (strip v) else none)
            none)
        ≡ (if inner v || holds_fields fs
            then cloned_dict (Dict.append ps (field k (strip v) (strip_fields fs)))
            else none)
  absorb_first_entry v absent strips rest = elim (Bool-cases (inner v)) [
    | inl changed ↦ rw changed (onward_entry ps k fs new apart _ v (strip v) absent (strips _))
    | inr same ↦ rw (same, strip_same v same) (pass_entry v rest)
  ]

  pub first_entry :
      (v : Value)
      → lookup k ps ≡ none
      → ClonesAs v
      → ((self : Value) → StripsEntries self fs)
      → ClonesEntries fs
      → rebuild_fields
          (dict i (Dict.append ps (field k v fs)))
          fs
          (update (dict i (Dict.append ps (field k v fs))) k v none)
        ≡ (if holds v || holds_fields fs
            then cloned_dict (Dict.append ps (in_dict k v (strip v) (strip_fields fs)))
            else none)
  unfolding rebuild strip holds
  first_entry (bytes b) absent child strips rest =
      drop_entry ps k fs new apart _ (bytes b) absent (strips _)
  first_entry (seq s j ys) absent child strips rest =
      rw child (absorb_first_entry (seq s j ys) absent strips rest)
  first_entry (dict j gs) absent child strips rest =
      rw child (absorb_first_entry (dict j gs) absent strips rest)
  first_entry v absent child strips rest = pass_entry v rest
