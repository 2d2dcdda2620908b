-- ===== src/Pyxis/Repo/Safety.antt =====
-- Storing a repository never indexes an empty list, and never meets an image or a CVE that is in
-- neither map.
use vuln4shift_backend.Prelude.{
  ◌≡◌, false, Option, List, arith, str_eq, nat_eq, nat_beq, Str, Result, ok, err,
}
use vuln4shift_backend.Prelude.Action.{
  pure, ◌>>=◌, each, Outcome, Holds, Holds-bind, Holds-if, Outcome-map,
}
use vuln4shift_backend.Prelude.GoMap.{GoMap, AllEntries}
use vuln4shift_backend.Models.{Repository}
use vuln4shift_backend.Pyxis.Api.{ApiImage}
use vuln4shift_backend.Pyxis.Api.Contents.{IsStorable}
use vuln4shift_backend.Pyxis.Cache.{Maps}
use vuln4shift_backend.Pyxis.Image.{
  Database, Client, Config, SyncError, Tx, statement, request, sync_image,
}
use vuln4shift_backend.Pyxis.Image.Steps.{
  internal, External, Held, HeldWith, Given, statement-Keeps, request-Holds,
}
use vuln4shift_backend.Pyxis.Repo.Parts.{
  RepoLaws, Anything, Anything-IsKept, AllStored, images_to_sync-Holds, sync_rows-Holds,
  link_images-Holds,
}
use vuln4shift_backend.Pyxis.Repo.Cached.{Covers, AllKnown, Covers-AllKnown}
use vuln4shift_backend.Pyxis.Repo.{
  images_to_sync, link_images, save_repository, store_repository, sync_listed, sync_stored,
  sync_repo_rows, commit_, close, sync_repo,
}

abbrev pub NothingLeft : {S : Type 0} → Unit {0} → S → Type 0
NothingLeft _ _ = Unit

module _ {D W E F : Type 0} (db : Database D E) (client : Client W F) (config : Config)
    (marshal : List Str → Str) (unmarshal : Str → Option (List Str)) (maps : Maps)
    (laws : RepoLaws db client) where
  sync_listed-Holds :
      (stored : Repository) (images : GoMap Str ApiImage)
      → AllEntries IsStorable images
      → Holds
          (Held Anything)
          (sync_listed {D = D} {W = W} {E = E} {F = F} db client config marshal unmarshal maps
            stored images)
          NothingLeft
          External
  unfolding sync_listed
  sync_listed-Holds stored images storable =
      Holds-bind External (Held Anything) (HeldWith Anything (λ rows. Covers maps rows images))
        NothingLeft (images_to_sync db client config marshal unmarshal maps images)
        (λ rows. each (sync_image db client config maps) rows >>= λ _.
          link_images db client config marshal unmarshal maps stored.id images)
        (images_to_sync-Holds db client config marshal unmarshal maps laws images storable)
        λ rows s (_, covered).
          Holds-bind External (Held Anything) (λ _. Held (AllStored Anything rows)) NothingLeft
            (each (sync_image db client config maps) rows)
            (λ _. link_images db client config marshal unmarshal maps stored.id images)
            (sync_rows-Holds db client config marshal unmarshal maps laws rows Anything
              Anything-IsKept)
            (λ _ t (_, all).
              Outcome-map {S = Tx D W} External (λ _. Held (AllKnown maps images)) NothingLeft
                (link_images db client config marshal unmarshal maps stored.id images t)
                (λ _ _ _. tt)
                (link_images-Holds db client config marshal unmarshal maps laws stored.id images t
                  (Covers-AllKnown maps rows images t.pending covered all)))
            s tt

  sync_stored-Holds :
      (stored : Repository)
      → Holds
          (Held Anything)
          (sync_stored {D = D} {W = W} {E = E} {F = F} db client config marshal unmarshal maps
            stored)
          NothingLeft
          External
  unfolding sync_stored
  sync_stored-Holds stored =
      let run = client.repo_images stored.registry stored.repository in
      Holds-bind External (Held Anything) (HeldWith Anything (Given run)) NothingLeft (request run)
        (sync_listed db client config marshal unmarshal maps stored)
        (request-Holds db client Anything run)
        λ images s (_, (w, got)).
          sync_listed-Holds stored images
            (laws.storable stored.registry stored.repository w images got) s tt

  store_repository-Holds :
      (repo : Repository)
      → Holds
          (Held Anything)
          (store_repository {D = D} {W = W} {E = E} {F = F} db client config marshal unmarshal maps
            repo)
          (λ _. Held Anything)
          External
  unfolding store_repository save_repository
  store_repository-Holds repo =
      Holds-if External (Held Anything) (λ _. Held Anything) (nat_beq repo.id 0) _ _
        (λ _. statement-Keeps db client Anything (db.create_repository repo))
        λ _.
          Holds-bind External (Held Anything) (λ _. Held Anything) (λ _. Held Anything)
            (statement (db.save_repository repo)) (λ _. pure repo)
            (statement-Keeps db client Anything (db.save_repository repo)) λ _ s h. tt

  committed-Holds :
      (repo : Repository)
      → Holds
          (Held Anything)
          (sync_repo_rows {D = D} {W = W} {E = E} {F = F} db client config marshal unmarshal maps
              repo
            >>= λ _. commit_ db client config marshal unmarshal maps)
          NothingLeft
          External
  unfolding sync_repo_rows commit_
  committed-Holds repo =
      Holds-bind External (Held Anything) NothingLeft NothingLeft
        (sync_repo_rows db client config marshal unmarshal maps repo)
        (λ _. commit_ db client config marshal unmarshal maps)
        (Holds-bind External (Held Anything) (λ _. Held Anything) NothingLeft
          (store_repository db client config marshal unmarshal maps repo)
          (sync_stored db client config marshal unmarshal maps) (store_repository-Holds repo)
          sync_stored-Holds)
        λ _ s _.
          Outcome-map {S = Tx D W} External (λ _. Held Anything) NothingLeft (statement db.commit s)
            (λ _ _ _. tt) (statement-Keeps db client Anything db.commit s tt)

  close-error :
      (r : Tx D W × Result (SyncError E F) (Unit {0})) (e : SyncError E F)
      → Outcome NothingLeft External r
      → (close db client config marshal unmarshal maps r).1 ≡ err e
      → internal e ≡ false
  unfolding close
  close-error (s, ok u) e h same = ground arith
  close-error (s, err x) e h same = ground (arith, h)

  -- If the rows created have the names that were asked for and the images of the API can be stored,
  -- then no repository's sync ends with the error that a CVE or an image is in no cache, or with an
  -- index out of range.
  pub sync_repo-External :
      (repo : Repository) (s : Tx D W) (e : SyncError E F)
      → (sync_repo db client config marshal unmarshal maps repo s).1 ≡ err e
      → internal e ≡ false
  unfolding sync_repo
  sync_repo-External repo s e same = close-error _ e (committed-Holds repo _ tt) same
