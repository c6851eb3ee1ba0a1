-- ===== src/Examples/Stores.antt =====
-- The embedded store and a scan over it at concrete inputs.
use artifact_depot.Base.{◌≡◌, refl, Bool, true, false, List, [], ◌∷◌, some, arith}
use artifact_depot.Base.Bytes.{Bytes, starts_with, bytes_lt, bytes_eq}
use artifact_depot.Keys.Shard.{table_artifacts, KeyTriple}
use artifact_depot.Kv.{KvLaws, select}
use artifact_depot.Kv.Redb.{WriteOp, writer_task, flat_key, partition_prefix, extract_sk}
use artifact_depot.Keys.Prefix.{prefix_end}
use artifact_depot.Kv.Redb.Envelope.{wrap_envelope, unwrap_envelope}
use artifact_depot.Kv.Redb.Laws.{redb_kv, redb_kv-KvLaws}
use artifact_depot.Kv.Redb.Batch.{Answered, writer_task-Answered}
use artifact_depot.Kv.Redb.Model.{tables, no_rows, tables-RedbLaws}
use artifact_depot.Service.Error.{Result, ok}
use artifact_depot.Service.Scan.{for_each_in_partition}
use artifact_depot.Service.Scan.Complete.{visit_all, for_each_in_partition-visit_all}

redb_kv-KvLaws_example : KvLaws (redb_kv tables)
redb_kv-KvLaws_example = redb_kv-KvLaws tables tables-RedbLaws

abbrev key_a : KeyTriple
key_a = record { table = table_artifacts; pk = 112 ∷ []; sk = 97 ∷ [] }

abbrev key_b : KeyTriple
key_b = record { table = table_artifacts; pk = 112 ∷ []; sk = 98 ∷ [] }

abbrev queue : List WriteOp
queue =
    WriteOp.put table_artifacts (97 ∷ []) (1 ∷ [])
    ∷ WriteOp.put_if_version table_artifacts (97 ∷ []) (2 ∷ []) (some 1)
    ∷ WriteOp.delete table_artifacts (98 ∷ [])
    ∷ []

-- One round of two operations that is committed, and one that is not.
writer_task-Answered_example :
    let (d', replies, left) = writer_task tables ((1, true) ∷ (0, false) ∷ []) no_rows queue in
    Answered tables true no_rows queue replies left d'
writer_task-Answered_example =
    writer_task-Answered tables true ((1, true) ∷ (0, false) ∷ []) no_rows queue (refl, tt)

abbrev collect : List Bytes → Bytes → Bytes → Result (List Bytes × Bool)
collect seen sk value = ok (sk ∷ seen, true)

-- The state of a database with two entries in one partition.
unfoldable two_rows : (redb_kv tables).State
unfolding redb_kv
two_rows = (redb_kv tables).put key_b (5 ∷ []) ((redb_kv tables).put key_a (4 ∷ []) no_rows)

two_rows-entries :
    (redb_kv tables).entries two_rows table_artifacts (112 ∷ [])
    ≡ ((97 ∷ []), (4 ∷ [])) ∷ ((98 ∷ []), (5 ∷ [])) ∷ []
unfolding two_rows tables no_rows flat_key partition_prefix wrap_envelope unwrap_envelope bytes_lt
    bytes_eq prefix_end extract_sk
two_rows-entries = refl

for_each_in_partition-visit_all_example :
    for_each_in_partition
      (redb_kv tables)
      (λ s. true)
      collect
      9
      two_rows
      table_artifacts
      (112 ∷ [])
      (97 ∷ [])
      1
      []
    ≡ some (
        visit_all collect [] (
          select
            (starts_with (97 ∷ []))
            ((redb_kv tables).entries two_rows table_artifacts (112 ∷ []))))
for_each_in_partition-visit_all_example =
    for_each_in_partition-visit_all (redb_kv tables) (redb_kv-KvLaws tables tables-RedbLaws)
      (λ s. true) collect 9 two_rows table_artifacts (112 ∷ []) (97 ∷ []) 1 [] (omega arith)
      (rw two_rows-entries (omega arith))
      (rw two_rows-entries ((omega arith, tt), ((omega arith, tt), tt)))
