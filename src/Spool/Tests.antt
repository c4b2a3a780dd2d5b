-- ===== src/Spool/Tests.antt =====
-- Examples of internal/spool: a write that fails in its rename beside an older entry.
use bitacora.Base.{◌≡◌, refl, true, false, Option, some, [], ◌∷◌}
use bitacora.Base.Int.{pos}
use bitacora.Base.Text.{Text, codes}
use bitacora.Base.Paths.{has_suffix}
use bitacora.Base.Files.{Files, renaming}
use bitacora.Spool.Entries.{Entry, write_atomic}
use bitacora.Spool.Visible.{IsHandedOver, write_atomic-IsHandedOver}

abbrev entry : Entry Text
entry = record { collector = codes "smart"; ts = 9; schema = pos 1; content = codes "ok" }

-- an encoding that keeps what the data say
abbrev encode : Entry Text → Option Text
encode e = some e.content

abbrev decode : Text → Option (Entry Text)
decode raw = some (record entry { content = raw })

abbrev old_files : Files
old_files = (codes "smart.json", codes "old") ∷ []

abbrev a_temp : Text
a_temp = codes ".smart-1.tmp"

temp_hidden : has_suffix a_temp (codes ".json") ≡ false
unfolding has_suffix
temp_hidden = refl

write_atomic-IsHandedOver_example :
    IsHandedOver decode
      (λ n. true)
      (codes "smart.json")
      (codes "ok")
      old_files
      (write_atomic encode true
        (record { fails = some renaming; partial = 1; removes = true })
        a_temp
        entry
        old_files)
write_atomic-IsHandedOver_example =
    write_atomic-IsHandedOver encode decode (λ n. true) true
      (record { fails = some renaming; partial = 1; removes = true }) a_temp entry old_files
      (codes "ok") refl temp_hidden refl
