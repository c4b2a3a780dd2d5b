-- ===== src/Logstore/Scan.antt =====
-- internal/logstore/index.go: ScanIndex after a block is written: the index has exactly one entry more.
use bitacora.Base.{
  ◌≡◌, refl, sym, ap, ◌∙◌, Bool, true, false, Option, none, some, List, [], ◌∷◌, ◌++◌, inl, inr,
  Bool-cases, All, All-map, append-nil,
}
use bitacora.Base.Text.{Text, codes}
use bitacora.Base.Map.{lookup, has, lookup-append, lookup-append_self, absent-All, has-append}
use bitacora.Base.Eq.{list_Eq, nat_Eq, list_beq_iff, ◌≟◌}
use bitacora.Base.Files.{Files}
use bitacora.Base.Paths.{has_suffix}
use bitacora.Logstore.Block.{BlockMeta}
use bitacora.Logstore.Index.{
  VerifyResult, empty_result, Found, id_of, visit, walk, orphans, add_block, enter, enter_all,
  scan_found, scan_index, walked,
}
use bitacora.Logstore.Walking.{
  IsNamed, walk-IsNamed, walk-append, visit_block, visit_meta, orphans-append, orphans_same,
  enter_all-append, enter_all_same,
}

abbrev pub no_files : Found
no_files = record { meta_files = []; payload_files = [] }

-- a block's two files, new under their id
pub record IsNewBlock (fs : Files) (id block sidecar : Text) : Type 0 where
  pub block_suffix : has_suffix block (codes ".zst") ≡ true
  pub not_meta : has_suffix block (codes ".meta.json") ≡ false
  pub block_id : id_of (codes ".zst") block ≡ id
  pub meta_suffix : has_suffix sidecar (codes ".meta.json") ≡ true
  pub meta_id : id_of (codes ".meta.json") sidecar ≡ id
  pub no_meta : lookup id (walk fs no_files).meta_files ≡ none
  pub no_payload : lookup id (walk fs no_files).payload_files ≡ none
  pub no_sidecar : lookup sidecar fs ≡ none

module _ (fs : Files) (id block sidecar payload encoded : Text)
    (n : IsNewBlock fs id block sidecar) where
  abbrev with_block : Files
  with_block = (fs ++ ((block, payload) ∷ [])) ++ ((sidecar, encoded) ∷ [])

  abbrev metas : List (Text × Text)
  metas = (walk fs no_files).meta_files

  abbrev payloads : List (Text × Text)
  payloads = (walk fs no_files).payload_files

  abbrev with_id : List (Text × Text) → Text → List (Text × Text)
  with_id m path = m ++ ((id, path) ∷ [])

  walk-with_block :
      walk with_block no_files
      ≡ record { meta_files = with_id metas sidecar; payload_files = with_id payloads block }
  unfolding walk
  walk-with_block =
      walk-append (fs ++ ((block, payload) ∷ [])) ((sidecar, encoded) ∷ []) no_files
      ∙ ap (visit sidecar) (
          walk-append fs ((block, payload) ∷ []) no_files
          ∙ visit_block block id (walk fs no_files) n.block_suffix n.not_meta n.block_id
              n.no_payload)
      ∙ visit_meta sidecar id (record (walk fs no_files) { payload_files = with_id payloads block })
          n.meta_suffix n.meta_id n.no_meta

  other_sidecar :
      (q : Text)
      → has_suffix q (codes ".meta.json") ≡ true
      → (id ≟ id_of (codes ".meta.json") q) ≡ false
      → lookup q with_block ≡ lookup q fs
  other_sidecar q hs hi =
      let notm : (sidecar ≟ q) ≡ false = elim (Bool-cases (sidecar ≟ q)) [
        | inr t ↦ t
        | inl t ↦
            let same : sidecar ≡ q = (list_beq_iff sidecar q).0 t in
            let e : id ≡ id_of (codes ".meta.json") q =
              sym n.meta_id ∙ ap (id_of (codes ".meta.json")) same in
            cc ((list_beq_iff id (id_of (codes ".meta.json") q)).1 e)
      ] in
      let notb : (block ≟ q) ≡ false = elim (Bool-cases (block ≟ q)) [
        | inr t ↦ t
        | inl t ↦
            let same : block ≡ q = (list_beq_iff block q).0 t in
            cc (n.not_meta, ap (λ x. has_suffix x (codes ".meta.json")) same)
      ] in
      lookup-append q sidecar encoded (fs ++ ((block, payload) ∷ [])) notm
      ∙ lookup-append q block payload fs notb

  -- the index's entries are read as before
  entries_same :
      (ms : List (Text × Text))
      → All IsNamed ms
      → All (λ m. (id ≟ m.0) ≡ false) ms
      → All
          (λ m.
            (has m.0 (with_id payloads block) ≡ has m.0 payloads)
            × (lookup m.1 with_block ≡ lookup m.1 fs))
          ms
  entries_same [] h k = tt
  entries_same ((i, q) ∷ ms) h k = (
    (has-append i id block payloads k.0, other_sidecar q h.0.0 (ap (◌≟◌ id) (sym h.0.1) ∙ k.0)),
    entries_same ms h.1 k.1,
  )

  others_same : All (λ p. has p.0 (with_id metas sidecar) ≡ has p.0 metas) payloads
  others_same =
      All-map (λ p. (id ≟ p.0) ≡ false) (λ p. has p.0 (with_id metas sidecar) ≡ has p.0 metas)
        payloads (λ p h. has-append p.0 id sidecar metas h) (absent-All id payloads n.no_payload)

  orphans-with_id :
      orphans (with_id metas sidecar) (with_id payloads block) ≡ orphans metas payloads
  orphans-with_id =
      let there : has id (with_id metas sidecar) ≡ true =
        ap (λ o. elim o [ none ↦ false | some _ ↦ true ])
          (lookup-append_self id sidecar metas n.no_meta) in
      let nothing : orphans (with_id metas sidecar) ((id, block) ∷ []) ≡ [] = rw there in
      orphans-append (with_id metas sidecar) payloads ((id, block) ∷ [])
      ∙ ap (◌++◌ (orphans (with_id metas sidecar) payloads)) nothing
      ∙ append-nil (orphans (with_id metas sidecar) payloads)
      ∙ orphans_same (with_id metas sidecar) metas payloads others_same

  module _ (unmarshal : Text → Option BlockMeta) (readable : Text → Bool) (meta : BlockMeta)
      (parsed : unmarshal encoded ≡ some meta) (read : readable sidecar ≡ true) where
    enter_new :
        (r : VerifyResult)
        → enter unmarshal readable with_block (with_id payloads block) (id, sidecar) r
          ≡ add_block meta r
    unfolding enter
    enter_new r =
        let there : has id (with_id payloads block) ≡ true =
          ap (λ o. elim o [ none ↦ false | some _ ↦ true ])
            (lookup-append_self id block payloads n.no_payload) in
        let nob : (block ≟ sidecar) ≡ false = elim (Bool-cases (block ≟ sidecar)) [
          | inr t ↦ t
          | inl t ↦
              let same : block ≡ sidecar = (list_beq_iff block sidecar).0 t in
              cc (n.not_meta, n.meta_suffix, ap (λ x. has_suffix x (codes ".meta.json")) same)
        ] in
        let found : lookup sidecar with_block ≡ some encoded =
          lookup-append_self sidecar encoded (fs ++ ((block, payload) ∷ []))
            (lookup-append sidecar block payload fs nob ∙ n.no_sidecar) in
        rw (there, read, found, parsed) refl

    pub scan_index-with_block :
        (scan_index unmarshal readable (walked with_block)).0
        ≡ add_block meta (scan_index unmarshal readable (walked fs)).0
    unfolding scan_index scan_found
    scan_index-with_block =
        let same =
          enter_all_same unmarshal readable fs with_block payloads (with_id payloads block) metas
            empty_result
            (entries_same metas (walk-IsNamed fs no_files tt) (absent-All id metas n.no_meta)) in
        let all : enter_all unmarshal readable with_block (with_id payloads block)
              (with_id metas sidecar) empty_result
            ≡ add_block meta (enter_all unmarshal readable fs payloads metas empty_result) =
          enter_all-append unmarshal readable with_block (with_id payloads block) metas
            (id, sidecar) empty_result
          ∙ enter_new
              (enter_all unmarshal readable with_block (with_id payloads block) metas empty_result)
          ∙ ap (add_block meta) same in
        ap (scan_found unmarshal readable with_block) walk-with_block
        ∙ ap {A = VerifyResult}
            (λ r. record r {
              orphan_payloads = orphans (with_id metas sidecar) (with_id payloads block);
            })
            all
        ∙ ap {A = List Text}
            (λ o.
              record (add_block meta
                (enter_all unmarshal readable fs payloads metas empty_result)) {
                  orphan_payloads = o;
                })
            orphans-with_id
