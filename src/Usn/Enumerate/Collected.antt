-- ===== src/Usn/Enumerate/Collected.antt =====
-- What an enumeration collects from whole buffers.
use swinv.Prelude.{
  ◌≤◌, ◌≡◌, refl, sym, ap, ◌∙◌, false, List, [], ◌∷◌, ◌++◌, none, Bytes, leb, length, length-append,
  drop, drop-length-append, map, All, arith, ok,
}
use swinv.Usn.Record.{done}
use swinv.Usn.Record.Walk.{Frame, IsFramed, stream, call_each, parse_records-call_each}
use swinv.Usn.FilePath.{build_result}
use swinv.Usn.Volumes.{normalize_volume}
use swinv.Usn.Enumerate.{
  Keep, Scan, note_record, on_record, Reply, buffer, end_of_table, rounds, Options, keep_of, Device,
  enumerate,
}

-- One full answer of the kernel: a cursor of eight bytes, and at least one record.
pub record Chunk : Type 0 where
  pub cursor : Bytes
  pub frames : List Frame

pub record IsChunk (c : Chunk) : Type 0 where
  pub eight : length c.cursor ≡ 8
  pub framed : All IsFramed c.frames
  pub has_record : 1 ≤ length (stream c.frames)

abbrev pub reply_of : Chunk → Reply
reply_of c = buffer (c.cursor ++ stream c.frames)

abbrev pub note_frames : Keep → List Frame → Scan → Scan
note_frames keep [] s = s
note_frames keep (f ∷ fs) s = note_frames keep fs (note_record keep f.raw s)

abbrev pub note_chunks : Keep → List Chunk → Scan → Scan
note_chunks keep [] s = s
note_chunks keep (c ∷ cs) s = note_chunks keep cs (note_frames keep c.frames s)

call_each-note :
    (keep : Keep) (fs : List Frame) (s : Scan)
    → call_each (on_record keep) fs s ≡ (done tt, note_frames keep fs s)
call_each-note keep [] s = refl
call_each-note keep (f ∷ fs) s = call_each-note keep fs (note_record keep f.raw s)

drop_cursor : (cursor rest : Bytes) → length cursor ≡ 8 → drop 8 (cursor ++ rest) ≡ rest
drop_cursor cursor rest h =
    ap (λ n. drop n (cursor ++ rest)) (sym h) ∙ drop-length-append cursor rest

rounds-chunks :
    (keep : Keep) (cs : List Chunk) (s : Scan)
    → All IsChunk cs
    → rounds keep (map reply_of cs ++ (end_of_table ∷ [])) s ≡ done (note_chunks keep cs s)
unfolding rounds
rounds-chunks keep [] s h = refl
rounds-chunks keep (c ∷ cs) s (h, hs) =
    let long : leb (length (c.cursor ++ stream c.frames)) 8 ≡ false =
      ground (arith, h.eight, h.has_record, length-append c.cursor (stream c.frames)) in
    rw
      (
        long,
        drop_cursor c.cursor (stream c.frames) h.eight,
        parse_records-call_each (on_record keep) c.frames h.framed s,
        call_each-note keep c.frames s,
      )
      (rounds-chunks keep cs (note_frames keep c.frames s) hs)

abbrev pub nothing : Scan
nothing = record { dirs = []; candidates = []; records = 0 }

-- When the volume's specification, file system and handle are accepted and the kernel answers with
-- whole buffers and then the end of the table, the enumeration succeeds, and its listing is built from
-- every record of every buffer, noted once and in the order read.
pub enumerate-note_chunks :
    (device : Device) (opts : Options) (volume : Bytes) (cs : List Chunk)
    → normalize_volume opts.volume ≡ ok volume
    → device.require_ntfs volume ≡ none
    → device.open_volume volume ≡ none
    → All IsChunk cs
    → enumerate device opts (map reply_of cs ++ (end_of_table ∷ [])) ≡ (
        let s = note_chunks (keep_of opts.keep) cs nothing in
        done (build_result volume s.dirs s.candidates s.records))
unfolding enumerate
enumerate-note_chunks device opts volume cs normal ntfs opened h =
    rw (normal, ntfs, opened, rounds-chunks (keep_of opts.keep) cs nothing h) refl
