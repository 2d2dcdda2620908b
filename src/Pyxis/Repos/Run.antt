-- ===== src/Pyxis/Repos/Run.antt =====
-- Which repositories of Pyxis a run syncs, and what its syncs leave in the maps.
use vuln4shift_backend.Prelude.{
  ◌≡◌, inl, inr, Bool, true, some, List, [], ◌∷◌, arith, Str, str_eq, Result, ok, err, Option-cases,
}
use vuln4shift_backend.Prelude.GoMap.{
  GoMap, lookup, insert, has, lookup-insert, Entries, Entries-insert,
}
use vuln4shift_backend.Models.{Repository, Arch, Image, Cve}
use vuln4shift_backend.Pyxis.Api.{ApiRepo}
use vuln4shift_backend.Pyxis.Cache.{
  Maps, repo_key, index_rows, prepare_maps, prepare_db_repositories, prepare_db_archs,
  prepare_db_images, prepare_db_cves,
}
use vuln4shift_backend.Pyxis.Repos.{update_repo, repo_row}

-- The Pyxis ID of every repository that is known by its key is known too.
abbrev pub IsLinked : GoMap Str Repository → GoMap Str Repository → Type 0
IsLinked repos by_id = Entries (λ k repo. has repo.pyxis_id by_id ≡ true) repos

index_rows-IsLinked :
    (rows : List Repository) (repos by_id : GoMap Str Repository)
    → IsLinked repos by_id
    → IsLinked (index_rows repo_key rows repos) (index_rows (λ repo. repo.pyxis_id) rows by_id)
unfolding index_rows
index_rows-IsLinked [] repos by_id h = h
index_rows-IsLinked (row ∷ rows) repos by_id h =
    index_rows-IsLinked rows (insert (repo_key row) row repos) (insert row.pyxis_id row by_id) (
      Entries-insert (λ k repo. has repo.pyxis_id (insert row.pyxis_id row by_id) ≡ true)
        (repo_key row) row repos
        (ground (
          arith,
          lookup-insert row.pyxis_id row.pyxis_id row by_id,
          str_eq.beq_iff row.pyxis_id row.pyxis_id,
        ))
        (λ k repo found.
          ground (arith, lookup-insert row.pyxis_id repo.pyxis_id row by_id, h k repo found)))

prepare_maps-IsLinked :
    {E : Type 0} (repos : Result E (List Repository)) (archs : Result E (List Arch))
    (images : Result E (List Image)) (cves : Result E (List Cve)) (m0 m : Maps)
    → prepare_maps repos archs images cves m0 ≡ ok m
    → IsLinked m.repos m.pyxis_id_repos
unfolding prepare_maps prepare_db_repositories prepare_db_archs prepare_db_images prepare_db_cves
    lookup
prepare_maps-IsLinked (ok rs) (ok as_) (ok is_) (ok cs) m0 m e k repo found =
    let linked = index_rows-IsLinked rs [] [] (λ j r no. ground arith) k repo (ground arith) in
    ground (arith, linked)
prepare_maps-IsLinked (err x) as_ is_ cs m0 m e k repo found = ground arith
prepare_maps-IsLinked (ok rs) (err x) is_ cs m0 m e k repo found = ground arith
prepare_maps-IsLinked (ok rs) (ok as_) (err x) cs m0 m e k repo found = ground arith
prepare_maps-IsLinked (ok rs) (ok as_) (ok is_) (err x) m0 m e k repo found = ground arith

-- With the maps that prepareMaps makes, a repository of Pyxis whose key is in the database always
-- leaves dbRepoMap, and if it is synced its row has the ID of the row known by its Pyxis ID: the
-- branch for a known key with an unknown Pyxis ID is never taken.
pub repo_row-known :
    {E : Type 0} (repos : Result E (List Repository)) (archs : Result E (List Arch))
    (images : Result E (List Image)) (cves : Result E (List Cve)) (m0 m : Maps) (force : Bool)
    (key : Str) (api : ApiRepo) (known : Repository)
    → prepare_maps repos archs images cves m0 ≡ ok m
    → lookup key m.repos ≡ some known
    → (repo : Repository) × (lookup known.pyxis_id m.pyxis_id_repos ≡ some repo)
      × ((repo_row force m.repos m.pyxis_id_repos key api).1 ≡ true)
      × ((row : Repository)
          → (repo_row force m.repos m.pyxis_id_repos key api).0 ≡ some row
          → row.id ≡ repo.id)
unfolding repo_row update_repo
repo_row-known repos archs images cves m0 m force key api known e found =
    let there = prepare_maps-IsLinked repos archs images cves m0 m e key known found in
    elim (Option-cases (lookup known.pyxis_id m.pyxis_id_repos)) [
      | inl lost ↦ ground (arith, there)
      | inr (repo, here) ↦ (repo, here, ground (arith, found), λ row r. ground (arith, found))
    ]
