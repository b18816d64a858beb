-- ===== src/Server/Files.antt =====
-- What `recv_file` of src/xcd_protocol_handler.hpp asks of the file system: the contents of the
-- regular files by their paths, and the paths that can be opened for writing.
pub mod Written
use xchange.Prelude.{Bool, true, false, Option, none, some, Bytes, [], ◌++◌, eqb, if◌then◌else◌}

pub record Files : Type 0 where
  pub content : Bytes → Option Bytes
  pub can_open : Bytes → Bool

-- `std::filesystem::exists`
unfoldable pub exists : Bytes → Files → Bool
exists path f = elim (f.content path) [ none ↦ false | some c ↦ true ]

abbrev pub update : (Bytes → Option Bytes) → Bytes → Option Bytes → Bytes → Option Bytes
update f path v p = if eqb path p then v else f p

-- The constructor of `std::ofstream`: an empty file, unless the path cannot be opened.
unfoldable pub open_out : Bytes → Files → Files
open_out path f =
    if f.can_open path then record f { content = update f.content path (some []) } else f

-- `os.write`: a stream that is not open ignores it.
unfoldable pub write_out : Bytes → Bytes → Files → Files
write_out path bytes f = elim (f.content path) [
  | none ↦ f
  | some c ↦
      if f.can_open path
      then record f { content = update f.content path (some (c ++ bytes)) }
      else f
]

-- `std::filesystem::remove`
unfoldable pub remove : Bytes → Files → Files
remove path f = record f { content = update f.content path none }
