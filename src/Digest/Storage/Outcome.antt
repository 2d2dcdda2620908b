-- ===== src/Digest/Storage/Outcome.antt =====
-- How `WriteClusterInfo` ends: which errors are returned, and what becomes of its transaction.
use vuln4shift_backend.Prelude.{
  ℕ, ◌≡◌, refl, inl, inr, ◌⊎◌, Option, none, some, Option-cases, List, arith, Str, str_eq,
  Result-cases,
}
use vuln4shift_backend.Prelude.GoMap.{GoMap}
use vuln4shift_backend.Digest.Message.{Workload}
use vuln4shift_backend.Digest.Storage.{
  ClusterRow, Database, committed, rolled_back, Written, finish, arch_id_of,
  link_digests_to_cluster, write_links, write_cluster, account_failed, write_account,
  write_cluster_info,
}

module _ {D E : Type 0} (db : Database D E) where
  -- A write that returns no error was committed, or its link failed and was rolled back.
  abbrev EndsWell : Written D E → Type 0
  EndsWell w = w.error ≡ none → (w.phase ≡ some committed) ⊎ (w.phase ≡ some rolled_back)

  finish-EndsWell : (m : GoMap Str ℕ) (r : D × Option E) → EndsWell (finish db m r)
  unfolding finish
  finish-EndsWell m (d, none) h = inl refl
  finish-EndsWell m (d, some e) h = inr refl

  write_links-EndsWell :
      (m : GoMap Str ℕ) (id : ℕ) (digests : List Str) (d : D)
      → EndsWell (write_links db m id digests d)
  unfolding write_links
  write_links-EndsWell m id digests d h = elim (Result-cases (arch_id_of db m d).1) [
    | inl (arch, found) ↦ ground (
      arith,
      finish-EndsWell (arch_id_of db m d).0 (link_digests_to_cluster db id arch digests d),
    )
    | inr (e, missing) ↦ ground arith
  ]

  write_cluster-EndsWell :
      (m : GoMap Str ℕ) (row : ClusterRow) (digests : List Str) (d : D)
      → EndsWell (write_cluster db m row digests d)
  unfolding write_cluster
  write_cluster-EndsWell m row digests d h = elim (Result-cases (db.upsert_cluster row d).1) [
    | inl (id, done) ↦ ground (arith, write_links-EndsWell m id digests (db.upsert_cluster row d).0)
    | inr (e, failed) ↦ ground arith
  ]

  account_failed-EndsWell : (m : GoMap Str ℕ) (d : D) (e : E) → EndsWell (account_failed db m d e)
  unfolding account_failed
  account_failed-EndsWell m d e h = ground arith

  module _ (parse_uuid : Str → Option Str) (encode : Workload → Option Str) (now : ℕ)
      (m : GoMap Str ℕ) (cluster org_id : Str) (workload : Workload) (digests : List Str)
      (d : D) where
    abbrev written : Written D E
    written = write_cluster_info db parse_uuid encode now m cluster org_id workload digests d

    -- A call that returns no error has committed its transaction or rolled it back: none is left
    -- open.
    pub write_cluster_info-ends :
        written.error ≡ none → (written.phase ≡ some committed) ⊎ (written.phase ≡ some rolled_back)
    unfolding write_cluster_info write_account
    write_cluster_info-ends h = elim (Option-cases (parse_uuid cluster)) [
      | inl e ↦ ground arith
      | inr (uuid, e) ↦ elim (Result-cases (db.first_or_create_account org_id d).1) [
        | inr (x, failed) ↦
            ground (arith, account_failed-EndsWell m (db.first_or_create_account org_id d).0 x)
        | inl (account, made) ↦ elim (Option-cases (encode workload)) [
          | inl none_encoded ↦ ground arith
          | inr (json, encoded) ↦ ground (
            arith,
            write_cluster-EndsWell m
                (record { uuid = uuid; account_id = account; last_seen = now; workload = json })
                digests (db.first_or_create_account org_id d).0,
          )
        ]
      ]
    ]
