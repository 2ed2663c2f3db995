-- ===== src/Transmit/Pending/Tests.antt =====
-- `Pending` on a directory of two queued scans and one broken state file.
use swinv.Prelude.{
  ◌==◌, if◌then◌else◌, ◌≡◌, refl, true, false, List, [], ◌∷◌, ◌++◌, none, some, Bytes, codes,
  bytes_eq, has_suffix, trim_suffix, Result, ok, err, map, ℕ, inr, Bool, arith,
}
use swinv.Prelude.Sort.{count_if, sort_by}
use swinv.Transmit.Retry.{Error, message}
use swinv.Transmit.Spool.{Spool, SpoolState}
use swinv.Transmit.Pending.{DirEntry, Queue, load_spool, pending, is_created_before, is_wanted}
use swinv.Transmit.Pending.Backlog.{
  Item, queued, other, entry_of, spool_of, backlog, IsOldestFirst, pending-backlog, pending_stops,
}

abbrev state : SpoolState
state = record {
  scan_id = codes "a";
  endpoint = codes "https://host";
  hostname = codes "alpha";
  created = 7;
  batch_lines = 2000;
  batch_bytes = 1048576;
  acked = 0;
  declared = 3;
}

abbrev decode_state : Bytes → Result Error SpoolState
decode_state [] = err (message (codes "unexpected end"))
decode_state (c ∷ cs) = ok (record state { created = c })

-- The file of the scan "b" is empty.
abbrev content_of : Bytes → Bytes
content_of [] = []
content_of (c ∷ path) = if c == b'b' then [] else c ∷ path

abbrev queue : Queue
queue = record {
  join = λ dir name. name;
  read_file = λ path. ok (content_of path);
  decode = decode_state;
  perm_of = λ path. none;
  has_file = λ path. true;
}

abbrev entry : Bytes → DirEntry
entry name = record { name = name; is_dir = false }

abbrev good : List DirEntry
good = entry (codes "a.state.json") ∷ entry (codes "a.ndjson") ∷ []

abbrev server : Bytes
server = codes "https://host"

abbrev queued_by : Bytes → ℕ → Item
queued_by name time = queued name (name ++ codes ".state.json") (record state { created = time })

-- The younger scan comes first in the directory.
abbrev two : List Item
two = queued_by (codes "z") 122 ∷ other (entry (codes "z.ndjson")) ∷ queued_by (codes "a") 97 ∷ []

pending_run : pending queue [] server (ok (some (map entry_of two))) ≡ (
  spool_of queue [] server (codes "a") (record state { created = 97 })
      ∷ spool_of queue [] server (codes "z") (record state { created = 122 })
      ∷ [],
  none,
)
unfolding pending sort_by is_created_before load_spool is_wanted trim_suffix has_suffix bytes_eq
pending_run = refl

pending-backlog_example :
    (found : List Spool) × (pending queue [] server (ok (some (map entry_of two))) ≡ (found, none))
    × IsOldestFirst found
    × ((p : Spool → Bool) → count_if p found ≡ count_if p (backlog queue [] server two))
unfolding has_suffix bytes_eq
pending-backlog_example = pending-backlog queue [] server two (
  (refl, refl, omega arith, omega arith),
  (inr refl, ((refl, refl, omega arith, omega arith), tt)),
)

pending_stops_example :
    ((found : List Spool) × (e : Error) × (pending queue [] server
          (ok (some (good ++ (entry (codes "b.state.json") ∷ good))))
        ≡ (found, some e)))
    × (pending queue [] server (ok (some (good ++ (entry (codes "b.state.json") ∷ good))))
        ≡ pending queue [] server (ok (some (good ++ (entry (codes "b.state.json") ∷ [])))))
unfolding load_spool trim_suffix has_suffix bytes_eq
pending_stops_example =
    pending_stops queue [] server good good (entry (codes "b.state.json")) _ refl refl
