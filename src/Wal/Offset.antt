-- ===== src/Wal/Offset.antt =====
-- rstmdb-wal/src/wal.rs, `WalOffset`: the segment id above 40 bits of offset, in 64 bits
pub mod Laws
use rstmdb.Base.{ℕ, ◌+◌, ◌*◌, ◌/◌, ◌%◌, ◌^◌, if◌then◌else◌, leb}
use rstmdb.Base.Result.{Result, ok, err}
use rstmdb.Wal.Entry.{Fault, panicked}

-- The `assert!` of `new` fails on an offset of more than 40 bits.
unfoldable pub new : ℕ → ℕ → Result Fault ℕ
new id offset = if leb (2 ^ 40) offset then err panicked else ok (id * 2 ^ 40 % 2 ^ 64 + offset)

unfoldable pub segment_id : ℕ → ℕ
segment_id o = o / 2 ^ 40

unfoldable pub offset : ℕ → ℕ
offset o = o % 2 ^ 40
