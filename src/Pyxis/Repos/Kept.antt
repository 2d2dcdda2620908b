-- ===== src/Pyxis/Repos/Kept.antt =====
-- What is kept of the rows that the sync of a repository left pending.
use vuln4shift_backend.Prelude.{◌≡◌, refl, [], Str, str_eq, Result, ok, err, IsDistinct}
use vuln4shift_backend.Prelude.GoMap.{lookup, keys}
use vuln4shift_backend.Pyxis.Cache.{Maps, Pending, flush_pending_cache, empty_pending_cache}
use vuln4shift_backend.Pyxis.Cache.Flush.{either_of, insert_all-lookup}
use vuln4shift_backend.Pyxis.Image.{Tx}
use vuln4shift_backend.Pyxis.Repos.{after_sync}

-- Each row that was pending is found in the maps as it was pending, every other one as it was in the
-- maps, and the repositories are as they were.
pub record IsFlushed (m : Maps) (p : Pending) (m' : Maps) : Type 0 where
  pub archs :
      (k : Str) → lookup k m'.archs ≡ either_of (lookup k p.archs_pending) (lookup k m.archs)
  pub images :
      (k : Str) → lookup k m'.images ≡ either_of (lookup k p.images_pending) (lookup k m.images)
  pub cves : (k : Str) → lookup k m'.cves ≡ either_of (lookup k p.cves_pending) (lookup k m.cves)
  pub repos : m'.repos ≡ m.repos
  pub pyxis_id_repos : m'.pyxis_id_repos ≡ m.pyxis_id_repos

-- By the result of the sync.
abbrev pub Kept : {X : Type 0} → Result X (Unit {0}) → Maps → Pending → Maps → Type 0
Kept (ok u) m p m' = IsFlushed m p m'
Kept (err e) m p m' = m' ≡ m

-- The keys of the pending rows are distinct, as they are in Go's maps.
pub record AreMaps (p : Pending) : Type 0 where
  pub archs : IsDistinct (keys p.archs_pending)
  pub images : IsDistinct (keys p.images_pending)
  pub cves : IsDistinct (keys p.cves_pending)

-- After the sync of a repository nothing is pending and the database stays as the sync left it. If
-- the sync was committed, every row that was pending is in the maps, as it was pending, and all else
-- is as it was; if it failed, the maps are as they were.
pub after_sync-Kept :
    {D W X : Type 0} (m : Maps) (s : Tx D W) (r : Result X (Unit {0}))
    → AreMaps s.pending
    → let run = after_sync m (s, r) in
      (run.tx.pending ≡ record { archs_pending = []; images_pending = []; cves_pending = [] })
      × (run.tx.db ≡ s.db)
      × (run.tx.world ≡ s.world)
      × Kept r m s.pending run.maps
unfolding after_sync flush_pending_cache empty_pending_cache
after_sync-Kept m s (ok u) a = (
  refl,
  refl,
  refl,
  record {
    archs = λ k. insert_all-lookup s.pending.archs_pending m.archs k a.archs;
    images = λ k. insert_all-lookup s.pending.images_pending m.images k a.images;
    cves = λ k. insert_all-lookup s.pending.cves_pending m.cves k a.cves;
    repos = refl;
    pyxis_id_repos = refl;
  },
)
after_sync-Kept m s (err e) a = (refl, refl, refl, refl)
