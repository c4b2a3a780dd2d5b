-- ===== src/Logstore/Atomic.antt =====
-- internal/logstore/logstore.go: writeAtomic, and what writeBlock leaves on disk.
use bitacora.Base.{
  ◌≡◌, ◌≢◌, refl, sym, ◌∙◌, false, Option, none, some, [], ◌∷◌, inl, inr, Bool-cases, take,
}
use bitacora.Base.Text.{Text}
use bitacora.Base.Map.{lookup, insert, delete, lookup-insert, lookup-delete, lookup-insert_self}
use bitacora.Base.Eq.{list_Eq, nat_Eq, list_beq_iff, ◌≟◌}
use bitacora.Base.Files.{
  Files, Stage, creating, writing, syncing, closing, renaming, Faults, discard, IsAtomic,
}
use bitacora.Logstore.Block.{write_until, write_atomic}

differ : (s t : Text) → s ≢ t → (s ≟ t) ≡ false
differ s t h = elim (Bool-cases (s ≟ t)) [ inl e ↦ absurd (h ((list_beq_iff s t).0 e)) | inr e ↦ e ]

pub lookup-insert_other :
    (k j : Text) (v : Text) (fs : Files) → k ≢ j → lookup j (insert k v fs) ≡ lookup j fs
lookup-insert_other k j v fs h = lookup-insert k j v fs ∙ rw (differ k j h)

pub lookup-delete_other : (k j : Text) (fs : Files) → k ≢ j → lookup j (delete k fs) ≡ lookup j fs
lookup-delete_other k j fs h = lookup-delete k j fs ∙ rw (differ k j h)

lookup-discard :
    (f : Faults) (k j : Text) (fs : Files) → k ≢ j → lookup j (discard f k fs) ≡ lookup j fs
lookup-discard f k j fs h = elim (Bool-cases f.removes) [
  | inl e ↦ rw e (lookup-delete_other k j fs h)
  | inr e ↦ rw e
]

module _ (f : Faults) (temp path bytes : Text) (fs : Files) (h : temp ≢ path) where
  put : (x : Text) → lookup path (insert temp x fs) ≡ lookup path fs
  put x = lookup-insert_other temp path x fs h

  left : (x : Text) → lookup path (discard f temp (insert temp x fs)) ≡ lookup path fs
  left x = lookup-discard f temp path (insert temp x fs) h ∙ put x

  left_others : (x j : Text) → j ≢ temp → lookup j (discard f temp (insert temp x fs)) ≡ lookup j fs
  left_others x j n =
      let m : temp ≢ j = λ e. n (sym e) in
      lookup-discard f temp j (insert temp x fs) m ∙ lookup-insert_other temp j x fs m

  -- what a failing Sync or Close leaves
  unsynced :
      (s : Stage)
      → IsAtomic fs temp path bytes (record {
        failure = some s;
        files = discard f temp (insert temp bytes fs);
        seen =
            discard f temp (insert temp bytes fs)
            ∷ insert temp bytes fs
            ∷ insert temp (take f.partial bytes) fs
            ∷ insert temp [] fs
            ∷ fs
            ∷ [];
      })
  unsynced s = record {
    seen = (
      inl (left bytes),
      (inl (put bytes), (inl (put (take f.partial bytes)), (inl (put []), (inl refl, tt)))),
    );
    done = λ e. cc;
    kept = λ _ _. left bytes;
    others = λ j n _. left_others bytes j n;
  }

  write_until-IsAtomic :
      (o : Option Stage) → IsAtomic fs temp path bytes (write_until o f temp path bytes fs)
  unfolding write_until
  write_until-IsAtomic none = record {
    seen = (
      inr (lookup-insert_self path bytes (delete temp fs)),
      (inl (put bytes), (inl (put (take f.partial bytes)), (inl (put []), (inl refl, tt)))),
    );
    done = λ _. lookup-insert_self path bytes (delete temp fs);
    kept = λ s e. cc;
    others = λ j n m.
        lookup-insert_other path j bytes (delete temp fs) (λ e. m (sym e))
        ∙ lookup-delete_other temp j fs (λ e. n (sym e));
  }
  write_until-IsAtomic (some creating) = record {
    seen = (inl refl, tt);
    done = λ e. cc;
    kept = λ _ _. refl;
    others = λ _ _ _. refl;
  }
  write_until-IsAtomic (some writing) = record {
    seen = (
      inl (left (take f.partial bytes)),
      (inl (put (take f.partial bytes)), (inl (put []), (inl refl, tt))),
    );
    done = λ e. cc;
    kept = λ _ _. left (take f.partial bytes);
    others = λ j n _. left_others (take f.partial bytes) j n;
  }
  write_until-IsAtomic (some renaming) = record {
    seen = (inl (put bytes), (inl (put (take f.partial bytes)), (inl (put []), (inl refl, tt))));
    done = λ e. cc;
    kept = λ _ _. put bytes;
    others = λ j n _. lookup-insert_other temp j bytes fs (λ e. n (sym e));
  }
  write_until-IsAtomic (some syncing) = unsynced syncing
  write_until-IsAtomic (some closing) = unsynced closing

  -- At every moment of writeAtomic, so also where the process is cut off, the file at the path is the old
  -- one or the new one, whole; without an error it is the new one, with an error the old one; and no
  -- other file but the temporary one changes. The temporary file is not the one at the path.
  pub write_atomic-IsAtomic : IsAtomic fs temp path bytes (write_atomic f temp path bytes fs)
  unfolding write_atomic
  write_atomic-IsAtomic = write_until-IsAtomic f.fails
