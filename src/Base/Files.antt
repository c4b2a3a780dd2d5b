-- ===== src/Base/Files.antt =====
-- The files of a directory tree by their paths, and what a file may hold while it is replaced.
use bitacora.Base.{
  ℕ, ◌≡◌, ◌≢◌, ◌⊎◌, Bool, Option, none, some, List, ap, if◌then◌else◌, All, Bool-cases, inl, inr,
  sym, ◌∙◌,
}
use bitacora.Base.Text.{Text}
use bitacora.Base.Map.{lookup, delete}
use bitacora.Base.Eq.{list_Eq, nat_Eq, list_beq_iff, ◌≟◌}

abbrev pub Files : Type 0
Files = List (Text × Text)

-- the calls that replace a file, in their order
pub data Stage : Type 0 where
  creating writing syncing closing renaming : Stage

-- How the calls go: the first that fails, how much a Write has put when it fails or is cut off, and
-- whether the removal of the temporary file succeeds.
pub record Faults : Type 0 where
  pub fails : Option Stage
  pub partial : ℕ
  pub removes : Bool

-- What a replacement did: the stage that failed, and the files at every moment, the last first.
pub record Replaced : Type 0 where
  pub failure : Option Stage
  pub files : Files
  pub seen : List Files

-- os.Remove, whose error is ignored
abbrev pub discard : Faults → Text → Files → Files
discard f temp fs = if f.removes then delete temp fs else fs

-- A reader sees the old file or the new one, whole, at every moment; nobody else's file changes.
pub record IsAtomic (old : Files) (temp path bytes : Text) (r : Replaced) : Type 0 where
  pub seen : All (λ fs. (lookup path fs ≡ lookup path old) ⊎ (lookup path fs ≡ some bytes)) r.seen
  pub done : r.failure ≡ none → lookup path r.files ≡ some bytes
  pub kept : (s : Stage) → r.failure ≡ some s → lookup path r.files ≡ lookup path old
  pub others : (j : Text) → j ≢ temp → j ≢ path → lookup j r.files ≡ lookup j old

-- After a failure no file but the temporary one differs.
pub failed_untouched :
    {old : Files} {temp path bytes : Text} {r : Replaced}
    → IsAtomic old temp path bytes r
    → (s : Stage) → r.failure ≡ some s
    → (j : Text) → j ≢ temp
    → lookup j r.files ≡ lookup j old
failed_untouched {old} {temp} {path} {bytes} {r} a s e j n = elim (Bool-cases (j ≟ path)) [
  | inl t ↦
      let same : j ≡ path = (list_beq_iff j path).0 t in
      ap (λ i. lookup i r.files) same ∙ a.kept s e ∙ ap (λ i. lookup i old) (sym same)
  | inr t ↦ a.others j n (λ p. cc ((list_beq_iff j path).1 p))
]
