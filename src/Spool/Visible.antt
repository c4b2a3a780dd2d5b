-- ===== src/Spool/Visible.antt =====
-- internal/spool/spool.go: a reader of the directory sees the old entries or the new ones at every moment.
use bitacora.Base.{
  ◌≡◌, ◌≢◌, ◌⊎◌, refl, ap, ◌∙◌, Bool, true, false, Option, none, some, List, [], ◌∷◌, ◌++◌, take,
  inl, inr, Bool-cases, All,
}
use bitacora.Base.Text.{Text, codes}
use bitacora.Base.Map.{lookup, insert, delete, insert-absent, delete-absent, delete-append}
use bitacora.Base.Eq.{list_Eq, nat_Eq}
use bitacora.Base.Paths.{has_suffix}
use bitacora.Base.Files.{
  Files, Stage, creating, writing, syncing, closing, renaming, Faults, Replaced, discard,
}
use bitacora.Spool.Entries.{
  Entry, write_until, write_encoded, write_atomic, WriteError, write_result, read_files, read_dir,
}

module _ {D : Type 0} (decode : Text → Option (Entry D)) (readable : Text → Bool) where
  read_files-append :
      (fs gs : Files) (es : List (Text × Entry D))
      → read_files decode readable (fs ++ gs) es
        ≡ read_files decode readable gs (read_files decode readable fs es)
  unfolding read_files
  read_files-append [] gs es = refl
  read_files-append ((n, raw) ∷ fs) gs es = read_files-append fs gs _

  module _ (temp : Text) (fs : Files) (hidden : has_suffix temp (codes ".json") ≡ false)
      (new : lookup temp fs ≡ none) where
    -- the temporary file is not seen
    unseen : (x : Text) → read_dir decode readable (insert temp x fs) ≡ read_dir decode readable fs
    unfolding read_dir read_files
    unseen x =
        ap (λ g. read_files decode readable g []) (insert-absent temp x fs new)
        ∙ read_files-append fs ((temp, x) ∷ []) []
        ∙ rw hidden refl

    discarded :
        (f : Faults) (x : Text)
        → read_dir decode readable (discard f temp (insert temp x fs)) ≡ read_dir decode readable fs
    discarded f x = elim (Bool-cases f.removes) [
      | inl r ↦ rw r (
          ap (read_dir decode readable)
            (ap (delete temp) (insert-absent temp x fs new) ∙ delete-append temp x fs new))
      | inr r ↦ rw r (unseen x)
    ]

    module _ (f : Faults) (dest bytes : Text) where
      -- what a reader sees at a moment
      IsOldOrNew : Files → Type 0
      IsOldOrNew g =
          (read_dir decode readable g ≡ read_dir decode readable fs)
          ⊎ (read_dir decode readable g ≡ read_dir decode readable (insert dest bytes fs))

      renamed :
          read_dir decode readable (insert dest bytes (delete temp fs))
          ≡ read_dir decode readable (insert dest bytes fs)
      renamed = ap (λ g. read_dir decode readable (insert dest bytes g)) (delete-absent temp fs new)

      -- all moments, and the end
      record IsClean (r : Replaced) : Type 0 where
        always : All IsOldOrNew r.seen
        done :
            r.failure ≡ none
            → read_dir decode readable r.files ≡ read_dir decode readable (insert dest bytes fs)
        kept :
            (s : Stage)
            → r.failure ≡ some s
            → read_dir decode readable r.files ≡ read_dir decode readable fs

      after_write : All IsOldOrNew (
          insert temp bytes fs
          ∷ insert temp (take f.partial bytes) fs
          ∷ insert temp [] fs
          ∷ fs
          ∷ [])
      unfolding IsOldOrNew
      after_write = (
        inl (unseen bytes),
        (inl (unseen (take f.partial bytes)), (inl (unseen []), (inl refl, tt))),
      )

      late :
          (s : Stage)
          → IsClean (record {
            failure = some s;
            files = discard f temp (insert temp bytes fs);
            seen =
                discard f temp (insert temp bytes fs)
                ∷ insert temp bytes fs
                ∷ insert temp (take f.partial bytes) fs
                ∷ insert temp [] fs
                ∷ fs
                ∷ [];
          })
      unfolding IsOldOrNew
      late s = record {
        always = (inl (discarded f bytes), after_write);
        done = λ e. cc;
        kept = λ _ _. discarded f bytes;
      }

      write_until-IsClean : (o : Option Stage) → IsClean (write_until o f temp dest bytes fs)
      unfolding write_until IsOldOrNew
      write_until-IsClean none = record {
        always = (inr renamed, after_write);
        done = λ _. renamed;
        kept = λ s e. cc;
      }
      write_until-IsClean (some creating) = record {
        always = (inl refl, tt);
        done = λ e. cc;
        kept = λ _ _. refl;
      }
      write_until-IsClean (some writing) = record {
        always = (
          inl (discarded f (take f.partial bytes)),
          (inl (unseen (take f.partial bytes)), (inl (unseen []), (inl refl, tt))),
        );
        done = λ e. cc;
        kept = λ _ _. discarded f (take f.partial bytes);
      }
      write_until-IsClean (some syncing) = late syncing
      write_until-IsClean (some closing) = late closing
      write_until-IsClean (some renaming) = late renaming

-- What a reader sees of a write: at every moment the old entries or the new ones; without an error the
-- new ones at the end, with an error the old ones.
pub record IsHandedOver {D : Type 0} (decode : Text → Option (Entry D)) (readable : Text → Bool)
    (dest bytes : Text) (fs : Files) (p : Option WriteError × Replaced) : Type 0 where
  pub always :
      All
        (λ g.
          (read_dir decode readable g ≡ read_dir decode readable fs)
          ⊎ (read_dir decode readable g ≡ read_dir decode readable (insert dest bytes fs)))
        p.1.seen
  pub done :
      p.0 ≡ none
      → read_dir decode readable p.1.files ≡ read_dir decode readable (insert dest bytes fs)
  pub kept :
      (e : WriteError)
      → p.0 ≡ some e
      → read_dir decode readable p.1.files ≡ read_dir decode readable fs

module _ {D : Type 0} (encode : Entry D → Option Text) (decode : Text → Option (Entry D))
    (readable : Text → Bool) (made : Bool) (f : Faults) (temp : Text) (e : Entry D)
    (fs : Files) where
  result_none : (o : Option Stage) → write_result o ≡ none → o ≡ none
  result_none none h = refl
  result_none (some s) h = cc

  result_some :
      (o : Option Stage) (w : WriteError) → write_result o ≡ some w → (s : Stage) × (o ≡ some s)
  result_some none w h = absurd (none_some w h)
    where
      none_some : (w : WriteError) → none ≢ some w
      none_some w h = cc
  result_some (some s) w h = (s, refl)

  write_encoded-IsHandedOver :
      (b : Bool) (bytes : Text)
      → has_suffix temp (codes ".json") ≡ false
      → lookup temp fs ≡ none
      → IsHandedOver decode readable
          (e.collector ++ codes ".json")
          bytes
          fs
          (write_encoded encode b f temp e.collector (some bytes) fs)
  write_encoded-IsHandedOver false bytes hidden new = record {
    always = (inl refl, tt);
    done = λ h. cc;
    kept = λ _ _. refl;
  }
  write_encoded-IsHandedOver true bytes hidden new =
      let dest = e.collector ++ codes ".json" in
      let c = write_until-IsClean decode readable temp fs hidden new f dest bytes f.fails in
      record {
        always = unfold IsOldOrNew in c.always;
        done = λ h. c.done (result_none _ h);
        kept = λ w h. let s = result_some _ w h in c.kept s.0 s.1;
      }

  -- At every moment of WriteAtomic, so also where it is cut off, ReadDir gives the entries of before or
  -- those with the new file in its place; without an error it is the latter at the end, with an error
  -- the former. The entry can be encoded, and the temporary file's name is new and does not end in .json.
  pub write_atomic-IsHandedOver :
      (bytes : Text)
      → encode e ≡ some bytes
      → has_suffix temp (codes ".json") ≡ false
      → lookup temp fs ≡ none
      → IsHandedOver decode readable
          (e.collector ++ codes ".json")
          bytes
          fs
          (write_atomic encode made f temp e fs)
  unfolding write_atomic
  write_atomic-IsHandedOver bytes h hidden new =
      rw h (write_encoded-IsHandedOver made bytes hidden new)
