-- ===== src/RaftLog/Shelf.antt =====
-- A database that keeps every value in a list: it has what `IsDurable` asks for.
use anraft.Base.{
  Bytes, same_bytes, same_bytes_self, true, ◌&&◌, List, [], ◌∷◌, if◌then◌else◌, arith,
}
use anraft.RaftLog.Defs.{Rocks, Reading}
use anraft.RaftLog.Recovery.{IsDurable}

pub record Stored : Type 0 where
  pub path : Bytes
  pub key : Bytes
  pub value : Bytes

abbrev find_stored : List Stored → Bytes → Bytes → Reading
find_stored [] path key = Reading.not_found
find_stored (x ∷ xs) path key =
    if same_bytes x.path path && same_bytes x.key key
    then Reading.found x.value
    else find_stored xs path key

abbrev pub shelf : Rocks
shelf = record {
  Disk = List Stored;
  open_db = λ d path. (true, d);
  get = find_stored;
  put = λ d path key value. (true, record { path = path; key = key; value = value } ∷ d);
}

pub shelf-IsDurable : IsDurable shelf
shelf-IsDurable = record {
  get_put = λ d path key value written.
      let p = same_bytes_self path in let k = same_bytes_self key in ground arith;
  get_open = λ d path key value found. found;
}
