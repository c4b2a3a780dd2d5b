-- ===== src/Blackbox/Recorder.antt =====
-- internal/blackbox/recorder.go: the writer of the ring.
-- `region` is `data`, the mapped file: a shared mapping, so what another process reads. An error of the
-- operating system ends Open before there is a recorder, and is left out; Sync and Close change no
-- byte. `int` and uint64 offsets are below the file's size.
use bitacora.Base.{
  ℕ, ◌+◌, ◌-◌, ◌*◌, ◌%◌, ◌^◌, ◌&&◌, none, some, List, [], ◌∷◌, ◌++◌, length, take, drop, replicate,
  if◌then◌else◌, ltb, ◌==◌,
}
use bitacora.Base.Text.{Text}
use bitacora.Blackbox.Header.{header_size, header_with, encode_header, decode_header}
use bitacora.Blackbox.Sample.{Sample, sample_encoded_size, encode_sample}

abbrev pub default_capacity : ℕ
default_capacity = 900

pub record Recorder : Type 0 where
  pub region : Text
  pub capacity : ℕ
  pub write_index : ℕ

-- copy(data[offset:offset+len(bytes)], bytes)
abbrev pub splice : ℕ → Text → Text → Text
splice offset bytes region = take offset region ++ (bytes ++ drop (offset + length bytes) region)

-- the file's size for a capacity
abbrev pub file_size : ℕ → ℕ
file_size capacity = header_size + capacity * sample_encoded_size

-- f.Truncate(size)
abbrev pub resize : ℕ → Text → Text
resize size raw = take size raw ++ replicate (size - length raw) 0

-- the file as it is mapped then, and the index to go on from
unfoldable pub prepare_file : ℕ → Text → Text × ℕ
prepare_file capacity raw =
    let fresh : Text × ℕ = (replicate (file_size capacity) 0, 0) in
    if ltb (length raw) header_size then fresh else elim (decode_header (take header_size raw)) [
      | none ↦ fresh
      | some h ↦
          if h.capacity == capacity && h.sample_size == sample_encoded_size
          then (resize (file_size capacity) raw, h.write_index)
          else fresh
    ]

-- writeHeaderLocked
unfoldable pub write_header : Recorder → Recorder
write_header r = record r {
  region =
      splice 0 (encode_header (header_with sample_encoded_size r.capacity r.write_index)) r.region;
}

abbrev pub capacity_of : ℕ → ℕ
capacity_of asked = if asked == 0 then default_capacity else asked

-- from the mapping of the prepared file on
unfoldable pub map_file : ℕ → Text × ℕ → Recorder
unfolding write_header
map_file capacity (region, write_index) =
    write_header (record { region = region; capacity = capacity; write_index = write_index })

-- Open, on what the file holds; nothing for a new file
unfoldable pub open_recorder : ℕ → Text → Recorder
unfolding prepare_file map_file
open_recorder asked raw = map_file (capacity_of asked) (prepare_file (capacity_of asked) raw)

unfoldable pub record_sample : Sample → Recorder → Recorder
unfolding write_header
record_sample s r =
    let slot = r.write_index % r.capacity in
    let offset = header_size + slot * sample_encoded_size in
    write_header (record r {
      region = splice offset (encode_sample s) r.region;
      write_index = (r.write_index + 1) % 2 ^ 64;
    })

unfoldable pub record_all : List Sample → Recorder → Recorder
record_all [] r = r
record_all (s ∷ ss) r = record_all ss (record_sample s r)
