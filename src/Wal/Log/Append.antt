-- ===== src/Wal/Log/Append.antt =====
-- An entry that `append` has acknowledged.
use rstmdb.Base.{
  ℕ, ◌+◌, ◌%◌, ◌^◌, ◌≡◌, refl, sym, ap, ◌∙◌, arith, Bool, true, false, some, Option-cases,
  Bool-cases, inl, inr, List, if◌then◌else◌, ◌++◌, length, nat_key,
}
use rstmdb.Base.Dict.{get-insert_same}
use rstmdb.Base.Result.{ok, Result-cases}
use rstmdb.Wal.Record.{WalRecord, layout, encode, new_record, disk_size}
use rstmdb.Wal.Segment.{File, Segment, append, sync}
use rstmdb.Wal.Entry.{WalEntry, entry_type}
use rstmdb.Wal.Offset
use rstmdb.Wal.Log.{
  Wal, LogLibraries, finish_append, write_record, append_record, append_entry, needs_sync,
  put_current, current_file, rotate_segment, fits_current, write_current,
}

-- The file behind the current segment ends in these bytes, and all of it has been synced.
pub record OnDisk (bytes : List ℕ) (w : Wal) : Type 0 where
  pub segment : Segment
  pub file : File
  pub before : List ℕ
  pub current : w.current_segment ≡ some segment
  pub opened : current_file segment w ≡ some file
  pub last : file.bytes ≡ before ++ bytes
  pub synced : file.synced ≡ length file.bytes

put_current-file :
    (s : Segment) (f : File) (w : Wal)
    → ((put_current s f w).current_segment ≡ some s) × (current_file s (put_current s f w) ≡ some f)
unfolding put_current current_file
put_current-file s f w = elim (Option-cases w.unlinked) [
  | inl p ↦ rw (p, put_current) (refl, rw (p, current_file) (get-insert_same w.files s.id f))
  | inr (g, p) ↦ rw (p, put_current) (refl, refl)
]

-- Nothing else of the state decides what `needs_sync` sees.
finish_append-OnDisk :
    (s : Segment) (f : File) (size : ℕ) (w : Wal) (before bytes : List ℕ)
    → s.sync_pending ≡ true
    → f.bytes ≡ before ++ bytes
    → needs_sync w.fsync_policy (w.writes_since_sync + 1) ≡ true
    → OnDisk bytes (finish_append s f size w)
unfolding finish_append sync current_file
finish_append-OnDisk s f size w before bytes pending e due =
    let s' : Segment = record s { sync_pending = false } in
    let f' : File = record f { synced = length f.bytes } in
    let (current, opened) = put_current-file s' f' w in
    rw (due, pending, finish_append)
      (record {
        segment = s';
        file = f';
        before = before;
        current = current;
        opened = opened;
        last = e;
        synced = refl;
      })

appended :
    (s : Segment) (f : File) (r : WalRecord) {offset : ℕ} {s' : Segment} {f' : File}
    → append s f r ≡ ok (offset, s', f')
    → (f'.bytes ≡ f.bytes ++ layout r) × (s'.sync_pending ≡ true)
unfolding append encode
appended s f r h = (ground (arith, h), ground (arith, h))

write_record-OnDisk :
    (r : WalRecord) (s : Segment) (w : Wal) {at : ℕ × ℕ}
    → needs_sync w.fsync_policy (w.writes_since_sync + 1) ≡ true
    → (write_record r s w).0 ≡ ok at
    → (at.0 ≡ r.header.sequence) × OnDisk (layout r) (write_record r s w).1
unfolding write_record
write_record-OnDisk r s w due h = elim (Option-cases (current_file s w)) [
  | inl p ↦ absurd (ground (arith, p, h))
  | inr (f, p) ↦ elim (Result-cases (append s f r)) [
    | inr (x, q) ↦ absurd (ground (arith, p, q, h))
    | inl ((offset, s', f'), q) ↦
        let (bytes, pending) = appended s f r q in
        elim (Result-cases (Offset.new s.id offset)) [
          | inr (x, o) ↦ absurd (ground (arith, p, q, o, h))
          | inl (place, o) ↦ (
            ground (arith, p, q, o, h),
            rw (p, q, o, write_record)
                (finish_append-OnDisk s' f' (disk_size r) w f.bytes (layout r) pending bytes due),
          )
        ]
  ]
]

write_current-OnDisk :
    (r : WalRecord) (w : Wal) {at : ℕ × ℕ}
    → needs_sync w.fsync_policy (w.writes_since_sync + 1) ≡ true
    → (write_current r w).0 ≡ ok at
    → (at.0 ≡ r.header.sequence) × OnDisk (layout r) (write_current r w).1
unfolding write_current
write_current-OnDisk r w due h = elim (Option-cases w.current_segment) [
  | inl p ↦ absurd (ground (arith, p, h))
  | inr (s, p) ↦
      let (number, disk) = write_record-OnDisk r s w due (rw (p, write_current) at h) in
      (number, rw (p, write_current) disk)
]

rotate_segment_policy :
    (w : Wal)
    → ((rotate_segment w).1.fsync_policy ≡ w.fsync_policy)
      × ((rotate_segment w).1.writes_since_sync ≡ w.writes_since_sync)
unfolding rotate_segment
rotate_segment_policy w = (ground arith, ground arith)

append_record-OnDisk :
    (r : WalRecord) (w : Wal) {at : ℕ × ℕ}
    → needs_sync w.fsync_policy (w.writes_since_sync + 1) ≡ true
    → (append_record r w).0 ≡ ok at
    → (at.0 ≡ r.header.sequence) × OnDisk (layout r) (append_record r w).1
unfolding append_record
append_record-OnDisk r w due h = elim (Bool-cases (fits_current w (disk_size r))) [
  | inl p ↦
      let (number, disk) = write_current-OnDisk r w due (rw (p, append_record) at h) in
      (number, rw (p, append_record) disk)
  | inr p ↦ elim (Result-cases (rotate_segment w).0) [
    | inr (x, q) ↦ absurd (ground (arith, p, q, h))
    | inl (u, q) ↦
        let (policy, writes) = rotate_segment_policy w in
        let (number, disk) =
          write_current-OnDisk r (rotate_segment w).1 (rw (policy, writes) due)
            (rw (p, q, append_record) at h) in
        (number, rw (p, q, append_record) disk)
  ]
]

module _ {N : Type 0} (libraries : LogLibraries N) where
  open libraries use {crc32c, to_vec}

  if_false : {A : Type 0} (b : Bool) (x y : A) → b ≡ false → (if b then x else y) ≡ y
  if_false true x y h = absurd cc
  if_false false x y h = refl

  run_open :
      (entry : WalEntry N) (w : Wal) (payload : List ℕ)
      → w.is_closed ≡ false
      → to_vec entry ≡ some payload
      → append_entry libraries entry w
        ≡ append_record
            (new_record crc32c (entry_type entry) w.next_sequence payload)
            (record w { next_sequence = (w.next_sequence + 1) % 2 ^ 64 })
  unfolding append_entry
  run_open entry w payload p q = if_false w.is_closed _ _ p ∙ rw q refl

  -- When `append` has returned a sequence number, under a policy by which this write is synced,
  -- the number is the one that was next, the entry has a JSON form, and its record under this
  -- number is at the end of the current segment, all of which has been synced.
  pub append_entry-OnDisk :
      (entry : WalEntry N) (w : Wal) (sequence at : ℕ)
      → needs_sync w.fsync_policy (w.writes_since_sync + 1) ≡ true
      → (append_entry libraries entry w).0 ≡ ok (sequence, at)
      → (payload : List ℕ) × (to_vec entry ≡ some payload)
        × (sequence ≡ w.next_sequence)
        × OnDisk
            (layout (new_record crc32c (entry_type entry) sequence payload))
            (append_entry libraries entry w).1
  unfolding append_entry new_record
  append_entry-OnDisk entry w sequence at due h = elim (Bool-cases w.is_closed) [
    | inl p ↦ absurd (ground (arith, p, h))
    | inr p ↦ elim (Option-cases (to_vec entry)) [
      | inl q ↦ absurd (ground (arith, p, q, h))
      | inr (payload, q) ↦
          let r : WalRecord = new_record crc32c (entry_type entry) w.next_sequence payload in
          let w' : Wal = record w { next_sequence = (w.next_sequence + 1) % 2 ^ 64 } in
          let run = run_open entry w payload p q in
          let (number, disk) = append_record-OnDisk r w' due (ap (λ x. x.0) (sym run) ∙ h) in
          (payload, q, number, rw (number, run) disk)
    ]
  ]
