-- ===== src/Logstore/Gathering.antt =====
-- internal/logstore/logstore.go: what writeBlock gathers from the lines.
use bitacora.Base.{
  ◌≤◌, ◌≡◌, sym, ◌∙◌, List, [], ◌∷◌, ◌++◌, append-nil, append_assoc, arith, All, concat, map,
}
use bitacora.Base.Time.{Time}
use bitacora.Base.Text.{Text}
use bitacora.Schema.Types.{LogLine}
use bitacora.Logstore.Block.{Gathered, gather_line, gather, gather_block, line_bytes}

-- the lines as they stand in a payload
unfoldable pub payload_of : List LogLine → Text
payload_of ls = concat (map line_bytes ls)

raw-gather : (ls : List LogLine) (g : Gathered) → (gather ls g).raw ≡ g.raw ++ payload_of ls
unfolding gather gather_line payload_of
raw-gather [] g = sym (append-nil g.raw)
raw-gather (l ∷ ls) g =
    raw-gather ls (gather_line l g) ∙ append_assoc g.raw (line_bytes l) (payload_of ls)

abbrev pub Within : Time → Time → LogLine → Type 0
Within from until l = (from ≤ l.ts) × (l.ts ≤ until)

narrower :
    (ls : List LogLine) (g : Gathered)
    → ((gather ls g).ts_min ≤ g.ts_min) × (g.ts_max ≤ (gather ls g).ts_max)
unfolding gather gather_line
narrower [] g = (omega arith, omega arith)
narrower (l ∷ ls) g =
    let rest = narrower ls (gather_line l g) in
    (ground (arith, rest.0, rest.1), ground (arith, rest.0, rest.1))

gather-Within :
    (ls : List LogLine) (g : Gathered) → All (Within (gather ls g).ts_min (gather ls g).ts_max) ls
unfolding gather gather_line
gather-Within [] g = tt
gather-Within (l ∷ ls) g =
    let rest = narrower ls (gather_line l g) in
    (
      (ground (arith, rest.0, rest.1), ground (arith, rest.0, rest.1)),
      gather-Within ls (gather_line l g),
    )

-- The payload is every line's message with a newline, in order, and ts_min and ts_max enclose them.
pub raw-gather_block :
    (l : LogLine) (ls : List LogLine) → (gather_block l ls).raw ≡ payload_of (l ∷ ls)
unfolding gather_block
raw-gather_block l ls = raw-gather (l ∷ ls) _

pub gather_block-Within :
    (l : LogLine) (ls : List LogLine)
    → All (Within (gather_block l ls).ts_min (gather_block l ls).ts_max) (l ∷ ls)
unfolding gather_block
gather_block-Within l ls = gather-Within (l ∷ ls) _
