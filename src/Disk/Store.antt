-- ===== src/Disk/Store.antt =====
-- models.py: the table `disk_snapshots`, and the snapshots that an audit compares to. Times are seconds;
-- `day` is the date that a time has as a text.
pub mod Ages
use ops_inspection_system.Common.{
  ℕ, suc, ◌-◌, ◌*◌, max, String, Bool, true, false, Option, none, some, List, [], ◌∷◌, ◌++◌, ◌&&◌,
  not, ◌==◌, ltb, leb, select, map, take, find, update_where, count, string_eq, number_eq,
  if◌then◌else◌,
}
use ops_inspection_system.Disk.{Snapshot, Row, Finding}
use ops_inspection_system.Disk.Audit.{Baselines}

pub record SnapshotRow : Type 0 where
  pub server_id : ℕ
  pub snapshot_date : String
  pub collected_at : ℕ
  pub payload : Option Snapshot
  pub findings : List Finding

-- `_decode_disk_snapshot`, with `_hours_since` in seconds.
unfoldable pub decode_disk_snapshot : ℕ → Option SnapshotRow → Option Row
decode_disk_snapshot now none = none
decode_disk_snapshot now (some r) =
    some (record { payload = r.payload; age = some (now - r.collected_at) })

-- The UNIQUE index of the table.
abbrev same_day : ℕ → String → SnapshotRow → Bool
same_day server_id date r = r.server_id == server_id && r.snapshot_date == date

-- `save_disk_snapshot`: INSERT … ON CONFLICT DO UPDATE.
unfoldable pub save_disk_snapshot :
    (ℕ → String) → ℕ → Option Snapshot → ℕ → List Finding → List SnapshotRow → List SnapshotRow
save_disk_snapshot day server_id payload collected_at findings rows =
    let date = day collected_at in
    elim (find (same_day server_id date) rows) [
      | some _ ↦
          update_where (same_day server_id date)
            (λ r. record r { collected_at = collected_at; payload = payload; findings = findings })
            rows
      | none ↦
          rows
          ++ record {
            server_id = server_id;
            snapshot_date = date;
            collected_at = collected_at;
            payload = payload;
            findings = findings;
          }
            ∷ []
    ]

abbrev pub later : SnapshotRow → Option SnapshotRow → SnapshotRow
later r none = r
later r (some best) = if ltb r.collected_at best.collected_at then best else r

-- ORDER BY collected_at DESC LIMIT 1, of the rows that pass the test.
unfoldable pub newest : (SnapshotRow → Bool) → List SnapshotRow → Option SnapshotRow
newest test [] = none
newest test (r ∷ rows) = let best = newest test rows in if test r then some (later r best) else best

-- The WHERE clause of `pick`.
abbrev pub in_window : ℕ → ℕ → ℕ → SnapshotRow → Bool
in_window server_id oldest newest_at r =
    r.server_id == server_id && leb oldest r.collected_at && leb r.collected_at newest_at

-- `get_disk_baselines`; the limits are seconds.
unfoldable pub get_disk_baselines : ℕ → ℕ → ℕ → ℕ → ℕ → List SnapshotRow → Baselines
get_disk_baselines server_id now min_age max_age recent_age rows = record {
  prev_day =
      decode_disk_snapshot now (newest (in_window server_id (now - max_age) (now - min_age)) rows);
  prev_recent =
      decode_disk_snapshot now
        (newest (in_window server_id (now - max_age) (now - recent_age)) rows);
  last_any = decode_disk_snapshot now (newest (λ r. r.server_id == server_id) rows);
}

-- `prune_disk_snapshots`: the rows that are left, and the number of the others.
unfoldable pub prune_disk_snapshots : ℕ → ℕ → List SnapshotRow → List SnapshotRow × ℕ
prune_disk_snapshots now keep_days rows =
    let old = λ (r : SnapshotRow). ltb r.collected_at (now - keep_days * 86400) in
    (select (λ r. not (old r)) rows, count old rows)

-- `delete_disk_snapshots`
unfoldable pub delete_disk_snapshots : ℕ → List SnapshotRow → List SnapshotRow
delete_disk_snapshots server_id rows = select (λ r. not (r.server_id == server_id)) rows
