-- ===== src/Wal/Offset/Laws.antt =====
-- An offset in the log stands for a segment and a place in it.
use rstmdb.Base.{ℕ, ◌^◌, ◌<◌, ◌≡◌, ◌↔◌, ◌⊎◌, arith}
use rstmdb.Base.Result.{ok}
use rstmdb.Wal.Offset.{new, segment_id, offset}

-- The two parts of an offset are those it was made of, where the segment id has at most 24 bits.
pub parts-new :
    (id place o : ℕ)
    → id < 2 ^ 24
    → new id place ≡ ok o
    → (segment_id o ≡ id) × (offset o ≡ place) × (o < 2 ^ 64)
unfolding new segment_id offset
parts-new id place o h e = ground (arith, e, h)

-- Offsets with segment ids of at most 24 bits are ordered by segment, and within it by place.
pub new-order :
    (id place o id' place' o' : ℕ)
    → id < 2 ^ 24
    → id' < 2 ^ 24
    → new id place ≡ ok o
    → new id' place' ≡ ok o'
    → (o < o') ↔ ((id < id') ⊎ ((id ≡ id') × (place < place')))
unfolding new
new-order id place o id' place' o' h h' e e' = ground (arith, e, e', h, h')
