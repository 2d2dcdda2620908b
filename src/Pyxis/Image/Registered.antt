-- ===== src/Pyxis/Image/Registered.antt =====
-- Storing an image never meets a CVE that is in neither map, and makes the image known.
use vuln4shift_backend.Prelude.{
  ℕ, ◌≡◌, refl, ap, true, not, ◌&&◌, ◌||◌, List, [], ◌∷◌, arith, map, select, is_some,
  if◌then◌else◌, str_eq, str_beq_iff, nat_beq, contains, contains-select, nat_eq, Str, Result, ok,
  err, Ensures, Ensures-if, Option-rule,
}
use vuln4shift_backend.Prelude.Action.{pure, ◌>>=◌, Holds, Holds-bind, Holds-if, Outcome-map}
use vuln4shift_backend.Prelude.GoMap.{GoMap, insert, has, values, delete, lookup-insert}
use vuln4shift_backend.Models.{Cve, Image, ImageCve}
use vuln4shift_backend.Pyxis.Cache.{Maps, Pending, image_cve_map}
use vuln4shift_backend.Pyxis.Image.Steps.{
  External, Held, HeldWith, Given, statement-Holds, statement-Keeps, request-Keeps, read-Holds,
  unless_empty-Holds,
}
use vuln4shift_backend.Pyxis.Image.{
  Database, Client, Config, SyncError, Tx, find_cve, put_cves, add_pending_cves, add_pending_image,
  missing_cves, unknown_cve, split_cves, keep, CveSplit, statement, request, pend, read,
  unless_empty, create_missing, register_missing_cves, insert_image, update_image, store_image,
  write_split, link_rows, link_cves, sync_image_cves, sync_image,
}

-- A creation gives the rows that it was given, with their IDs.
pub record CreateLaws {D E : Type 0} (db : Database D E) : Type 0 where
  pub cve_names :
      (cves rows : List Cve) (d : D)
      → (db.create_cves cves d).1 ≡ ok rows
      → map (λ cve. cve.name) rows ≡ map (λ cve. cve.name) cves
  pub image_pyxis_id :
      (image row : Image) (d : D)
      → (db.create_image image d).1 ≡ ok row
      → row.pyxis_id ≡ image.pyxis_id

module _ (maps : Maps) where
  abbrev pub AllFound : List Str → Pending → Type 0
  AllFound names p = (n : Str) → contains names n ≡ true → is_some (find_cve maps p n) ≡ true

  put_cves-has :
      (cves : List Cve) (m : GoMap Str Cve) (n : Str)
      → has n (put_cves cves m) ≡ (contains (map (λ cve. cve.name) cves) n || has n m)
  put_cves-has [] m n = refl
  put_cves-has (cve ∷ cves) m n =
      ground (arith, put_cves-has cves (insert cve.name cve m) n, lookup-insert cve.name n cve m)

  unknown-names : (names : List Str) → map (λ cve. cve.name) (map unknown_cve names) ≡ names
  unfolding unknown_cve
  unknown-names [] = refl
  unknown-names (n ∷ names) = ground (arith, unknown-names names)

  missing_cves-contains :
      (p : Pending) (names : List Str) (n : Str)
      → contains (map (λ cve. cve.name) (missing_cves maps p names)) n
        ≡ (not (is_some (find_cve maps p n)) && contains names n)
  unfolding missing_cves
  missing_cves-contains p names n = ground (
    arith,
    unknown-names (select (λ name. not (is_some (find_cve maps p name))) names),
    contains-select (λ name. not (is_some (find_cve maps p name))) names n,
  )

-- Results whose error, if any, is external.
module _ {E F : Type 0} where
  keep-External :
      (row : ImageCve) (r : Result (SyncError E F) CveSplit)
      → Ensures (λ _. Unit) External r
      → Ensures (λ _. Unit) External (keep row r)
  keep-External row (ok (to_insert, rest)) h = tt
  keep-External row (err e) h = h

module _ {D W E F : Type 0} (db : Database D E) (client : Client W F) where
  abbrev pub Fine : Result (SyncError E F) CveSplit → Type 0
  Fine r = Ensures (λ _. Unit) External r

  split_cves-Fine :
      (maps : Maps) (p : Pending) (i : ℕ) (names : List Str) (current : GoMap ℕ ImageCve)
      → AllFound maps names p
      → Fine (split_cves maps p i names current)
  unfolding split_cves
  split_cves-Fine maps p i [] current h = tt
  split_cves-Fine maps p i (n ∷ names) current h =
      let rest : AllFound maps names p = λ k there. h k (ground (arith, there)) in
      Option-rule Fine (find_cve maps p n) _ _ (λ lost. ground (arith, h n, str_beq_iff n n, lost))
        λ cve found.
          Ensures-if (λ _. Unit) External (has cve.id current) _ _
            (λ old. split_cves-Fine maps p i names (delete cve.id current) rest)
            (λ new.
              keep-External _ (split_cves maps p i names current)
                (split_cves-Fine maps p i names current rest))

module _ {D W E F : Type 0} (db : Database D E) (client : Client W F) (config : Config)
    (maps : Maps) (P : Pending → Type 0) where
  pub link_cves-Holds :
      (i : ℕ) (names : List Str)
      → ((p : Pending) → P p → AllFound maps names p)
      → Holds
          (Held P)
          (link_cves {D = D} {W = W} {E = E} {F = F} db client config maps i names)
          (λ _. Held P)
          External
  unfolding link_cves link_rows write_split
  link_cves-Holds i names found =
      Holds-bind External (Held P) (λ _. Held P) (λ _. Held P) (statement (db.find_image_cves i))
        (link_rows db client config maps i names)
        (statement-Keeps db client P (db.find_image_cves i))
        λ rows.
          Holds-bind External (Held P) (λ _. Held P) (λ _. Held P)
            (read λ p. split_cves maps p i names (image_cve_map rows []))
            (write_split db client config maps)
            (read-Holds db client P (λ p. split_cves maps p i names (image_cve_map rows []))
              λ p hp. split_cves-Fine db client maps p i names (image_cve_map rows []) (found p hp))
            (λ split.
              Holds-bind External (Held P) (λ _. Held P) (λ _. Held P)
                (unless_empty db.create_image_cves split.0)
                (λ _. unless_empty db.delete_image_cves (values split.1))
                (unless_empty-Holds db client P db.create_image_cves split.0)
                λ _. unless_empty-Holds db client P db.delete_image_cves (values split.1))

-- A predicate on the pending rows that adding to them keeps.
pub record IsKept (P : Pending → Type 0) : Type 0 where
  pub by_cves : (cves : List Cve) (p : Pending) → P p → P (add_pending_cves cves p)
  pub by_image : (image : Image) (p : Pending) → P p → P (add_pending_image image p)

module _ {D W E F : Type 0} (db : Database D E) (client : Client W F) (config : Config)
    (maps : Maps) (laws : CreateLaws db) (P : Pending → Type 0) (kept : IsKept P) where
  created-AllFound :
      (names : List Str) (missing created : List Cve) (p : Pending)
      → missing ≡ missing_cves maps p names
      → map (λ cve. cve.name) created ≡ map (λ cve. cve.name) missing
      → AllFound maps names (add_pending_cves created p)
  unfolding add_pending_cves
  created-AllFound names missing created p e same n there = ground (
    arith,
    put_cves-has maps created p.cves_pending n,
    missing_cves-contains maps p names n,
    ap (λ l. contains (map (λ cve. cve.name) l) n) e,
    ap (λ l. contains l n) same,
  )

  create_missing-Holds :
      (names : List Str) (missing : List Cve)
      → Holds
          (λ s. P s.pending × (missing ≡ missing_cves maps s.pending names))
          (create_missing {D = D} {W = W} {E = E} {F = F} db client config maps missing)
          (λ _ s. P s.pending × AllFound maps names s.pending)
          External
  unfolding create_missing
  create_missing-Holds names [] s (h, e) = (
    h,
    λ n there. ground (
      arith,
      missing_cves-contains maps s.pending names n,
      ap (λ l. contains (map (λ cve. cve.name) l) n) e,
    ),
  )
  create_missing-Holds names (cve ∷ cves) s0 h0 =
      let Q : Pending → Type 0 = λ p. P p × ((cve ∷ cves) ≡ missing_cves maps p names) in
      Holds-bind External (Held Q) (HeldWith Q (Given (db.create_cves (cve ∷ cves))))
        (λ _. Held (λ p. P p × AllFound maps names p)) (statement (db.create_cves (cve ∷ cves)))
        (λ created. pend (add_pending_cves created))
        (statement-Holds db client Q (db.create_cves (cve ∷ cves)))
        (λ created s ((h, e), (d, made)). (
          kept.by_cves created s.pending h,
          created-AllFound names (cve ∷ cves) created s.pending e
              (laws.cve_names (cve ∷ cves) created d made),
        ))
        s0 h0

  pub register_missing_cves-Holds :
      (names : List Str)
      → Holds
          (Held P)
          (register_missing_cves {D = D} {W = W} {E = E} {F = F} db client config maps names)
          (λ _. Held (λ p. P p × AllFound maps names p))
          External
  unfolding register_missing_cves
  register_missing_cves-Holds names s h =
      create_missing-Holds names (missing_cves maps s.pending names) s (h, refl)

  sync_image_cves-Holds :
      (image : Image)
      → Holds
          (Held P)
          (sync_image_cves {D = D} {W = W} {E = E} {F = F} db client config maps image)
          (λ _. Held P)
          External
  unfolding sync_image_cves
  sync_image_cves-Holds image =
      Holds-bind External (Held P) (λ _. Held P) (λ _. Held P)
        (request (client.image_cves image.pyxis_id))
        (λ names. register_missing_cves db client config maps names >>= λ _.
          link_cves db client config maps image.id names)
        (request-Keeps db client P (client.image_cves image.pyxis_id))
        λ names s h.
          let P' : Pending → Type 0 = λ p. P p × AllFound maps names p in
          Outcome-map {S = Tx D W} External (λ _. Held P') (λ _. Held P)
            ((register_missing_cves db client config maps names >>= λ _.
                link_cves db client config maps image.id names)
              s)
            (λ a t k. k.0)
            (Holds-bind External (Held P) (λ _. Held P') (λ _. Held P')
              (register_missing_cves db client config maps names)
              (λ _. link_cves db client config maps image.id names)
              (register_missing_cves-Holds names)
              (λ _. link_cves-Holds db client config maps P' image.id names (λ p q. q.1)) s h)

-- A new image is among the pending ones.
abbrev pub IsStored : Image → Pending → Type 0
IsStored image p = image.id ≡ 0 → has image.pyxis_id p.images_pending ≡ true

abbrev pub WithStored : (Pending → Type 0) → Image → Pending → Type 0
WithStored P image p = P p × IsStored image p

pub WithStored-IsKept :
    (P : Pending → Type 0) (image : Image) → IsKept P → IsKept (WithStored P image)
unfolding add_pending_cves add_pending_image
WithStored-IsKept P image kept = record {
  by_cves = λ cves p (h, k). (kept.by_cves cves p h, k);
  by_image = λ i p (h, k). (
    kept.by_image i p h,
    λ new. ground (arith, k new, lookup-insert i.pyxis_id image.pyxis_id i p.images_pending),
  );
}

module _ {D W E F : Type 0} (db : Database D E) (client : Client W F) (config : Config)
    (maps : Maps) (laws : CreateLaws db) (P : Pending → Type 0) (kept : IsKept P) where
  insert_image-Holds :
      (image : Image)
      → Holds
          (Held P)
          (insert_image {D = D} {W = W} {E = E} {F = F} db client config maps image)
          (λ _. Held (WithStored P image))
          External
  unfolding insert_image add_pending_image
  insert_image-Holds image =
      Holds-bind External (Held P) (HeldWith P (Given (db.create_image image)))
        (λ _. Held (WithStored P image)) (statement (db.create_image image))
        (λ created. pend (add_pending_image created) >>= λ _. pure created)
        (statement-Holds db client P (db.create_image image))
        λ created s (h, (d, made)). (
          kept.by_image created s.pending h,
          λ new. ground (
            arith,
            laws.image_pyxis_id image created d made,
            lookup-insert created.pyxis_id image.pyxis_id created s.pending.images_pending,
            str_beq_iff created.pyxis_id image.pyxis_id,
          ),
        )

  store_image-Holds :
      (image : Image)
      → Holds
          (Held P)
          (store_image {D = D} {W = W} {E = E} {F = F} db client config maps image)
          (λ _. Held (WithStored P image))
          External
  unfolding store_image update_image
  store_image-Holds image =
      Holds-if External (Held P) (λ _. Held (WithStored P image)) (nat_beq image.id 0) _ _
        (λ new. insert_image-Holds image)
        λ old.
          Holds-bind External (Held P) (λ _. Held P) (λ _. Held (WithStored P image))
            (statement (db.save_image image)) (λ _. pure image)
            (statement-Keeps db client P (db.save_image image))
            λ _ s h. (h, λ new. ground (arith, old, new))

  -- Storing an image keeps what is kept, makes the image known, and ends with no error that the
  -- maps are to blame for.
  pub sync_image-Holds :
      (image : Image)
      → Holds
          (Held P)
          (sync_image {D = D} {W = W} {E = E} {F = F} db client config maps image)
          (λ _. Held (WithStored P image))
          External
  unfolding sync_image
  sync_image-Holds image =
      let Q = WithStored P image in
      Holds-bind External (Held P) (λ _. Held Q) (λ _. Held Q)
        (store_image db client config maps image)
        (λ stored.
          if config.skip_image_cve_sync
          then pure tt
          else sync_image_cves db client config maps stored)
        (store_image-Holds image)
        λ stored.
          Holds-if External (Held Q) (λ _. Held Q) config.skip_image_cve_sync _ _ (λ _ s h. h)
            λ _.
              sync_image_cves-Holds db client config maps laws Q (WithStored-IsKept P image kept)
                stored
