-- ===== src/Pyxis/Image/Steps.antt =====
-- What the steps of a transaction keep of the pending rows, and which errors they end with.
use vuln4shift_backend.Prelude.{
  ◌≡◌, refl, ap, Bool, true, false, List, [], ◌∷◌, Result, ok, err, Ensures,
}
use vuln4shift_backend.Prelude.Action.{Outcome, Holds, Outcome-map}
use vuln4shift_backend.Pyxis.Api.{ApiError}
use vuln4shift_backend.Pyxis.Cache.{Pending}
use vuln4shift_backend.Pyxis.Image.{
  Database, Client, SyncError, Tx, cve_not_in_cache, image_not_in_cache, index_out_of_range,
  lift_result, lift_api, statement, request, read, unless_empty,
}

-- The errors that the maps or an index would be to blame for.
abbrev pub internal : {E F : Type 0} → SyncError E F → Bool
internal (cve_not_in_cache n) = true
internal (image_not_in_cache n) = true
internal index_out_of_range = true
internal _ = false

abbrev pub External : {E F : Type 0} → SyncError E F → Type 0
External e = internal e ≡ false

-- What holds of the pending rows.
abbrev pub Held : {D W : Type 0} → (Pending → Type 0) → Tx D W → Type 0
Held P s = P s.pending

-- A value that a statement or a request gave in some state.
abbrev pub Given : {D E A : Type 0} → (D → D × Result E A) → A → Type 0
Given {D} run a = (d : D) × ((run d).1 ≡ ok a)

abbrev pub HeldWith : {D W A : Type 0} → (Pending → Type 0) → (A → Type 0) → A → Tx D W → Type 0
HeldWith P R a s = Held P s × R a

module _ {D W E F : Type 0} (db : Database D E) (client : Client W F) (P : Pending → Type 0) where
  -- What a statement, a request, a change and a reading of the pending rows keep.
  statement-Outcome :
      {A : Type 0} (w : W) (p : Pending) (d0 : D) (run : D → D × Result E A) (r : D × Result E A)
      → run d0 ≡ r
      → P p
      → Outcome (HeldWith P (Given run)) External (
          let s : Tx D W = record { db = r.0; world = w; pending = p } in
          let r' : Result (SyncError E F) A = lift_result r.1 in (s, r'))
  statement-Outcome w p d0 run (d, ok a) e h = (h, (d0, ap (λ x. x.1) e))
  statement-Outcome w p d0 run (d, err x) e h = refl

  pub statement-Holds :
      {A : Type 0} (run : D → D × Result E A)
      → Holds
          (Held P)
          (statement {D = D} {W = W} {E = E} {F = F} run)
          (HeldWith P (Given run))
          External
  statement-Holds run s h = statement-Outcome s.world s.pending s.db run (run s.db) refl h

  pub statement-Keeps :
      {A : Type 0} (run : D → D × Result E A)
      → Holds (Held P) (statement {D = D} {W = W} {E = E} {F = F} run) (λ _. Held P) External
  statement-Keeps run s h =
      Outcome-map External (HeldWith P (Given run)) (λ _. Held P) (statement run s) (λ a t k. k.0)
        (statement-Holds run s h)

  request-Outcome :
      {A : Type 0} (d : D) (p : Pending) (w0 : W) (run : W → W × Result (ApiError F) A)
      (r : W × Result (ApiError F) A)
      → run w0 ≡ r
      → P p
      → Outcome (HeldWith P (Given run)) External (
          let s : Tx D W = record { db = d; world = r.0; pending = p } in
          let r' : Result (SyncError E F) A = lift_api r.1 in (s, r'))
  request-Outcome d p w0 run (w, ok a) e h = (h, (w0, ap (λ x. x.1) e))
  request-Outcome d p w0 run (w, err x) e h = refl

  pub request-Holds :
      {A : Type 0} (run : W → W × Result (ApiError F) A)
      → Holds
          (Held P)
          (request {D = D} {W = W} {E = E} {F = F} run)
          (HeldWith P (Given run))
          External
  request-Holds run s h = request-Outcome s.db s.pending s.world run (run s.world) refl h

  pub request-Keeps :
      {A : Type 0} (run : W → W × Result (ApiError F) A)
      → Holds (Held P) (request {D = D} {W = W} {E = E} {F = F} run) (λ _. Held P) External
  request-Keeps run s h =
      Outcome-map External (HeldWith P (Given run)) (λ _. Held P) (request run s) (λ a t k. k.0)
        (request-Holds run s h)

  read-Outcome :
      {A : Type 0} (s : Tx D W) (r : Result (SyncError E F) A)
      → Ensures (λ _. Unit) External r
      → P s.pending
      → Outcome (λ _. Held P) External (let r' : Result (SyncError E F) A = r in (s, r'))
  read-Outcome s (ok a) e h = h
  read-Outcome s (err x) e h = e

  pub read-Holds :
      {A : Type 0} (f : Pending → Result (SyncError E F) A)
      → ((p : Pending) → P p → Ensures (λ _. Unit) External (f p))
      → Holds (Held P) (read {D = D} {W = W} f) (λ _. Held P) External
  read-Holds f k s h = read-Outcome s (f s.pending) (k s.pending h) h

  pub unless_empty-Holds :
      {A : Type 0} (run : List A → D → D × Result E (Unit {0})) (rows : List A)
      → Holds
          (Held P)
          (unless_empty {D = D} {W = W} {E = E} {F = F} run rows)
          (λ _. Held P)
          External
  unless_empty-Holds run [] s h = h
  unless_empty-Holds run (row ∷ rows) s h = statement-Keeps (run (row ∷ rows)) s h
