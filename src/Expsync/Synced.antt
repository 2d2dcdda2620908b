-- ===== src/Expsync/Synced.antt =====
-- After a sync of exploits every known CVE has the exploits that the file gives it, and no others.
use mathlib.Core.Path.{subst}
use vuln4shift_backend.Prelude.{
  ℕ, ◌≡◌, refl, sym, ap, ◌∙◌, inl, inr, Bool, true, not, ◌&&◌, Option, none, some, List, [], ◌∷◌,
  map, arith, is_some, if◌then◌else◌, Bool-cases, select, Str, str_eq, ◌==◌, eq_sound, contains,
  IsDistinct, Result, ok, err,
}
use vuln4shift_backend.Prelude.Action.{
  Action, ◌>>=◌, Outcome, Holds, Holds-bind, Outcome-map, Any, Holds-ok,
}
use vuln4shift_backend.Prelude.GoMap.{GoMap, lookup, has, keys, AllEntries}
use vuln4shift_backend.Strings.Join.{Lacks}
use vuln4shift_backend.Models.{Cve}
use vuln4shift_backend.Expsync.{
  ExploitMetadata, Exploits, FetchError, Database, SyncError, not_pruned, not_updated,
  not_committed, wrapped, trimmed, update_statement, named, remove_exploit_data,
  prune_cves_metadata, exec_update, update_exploits_metadata, store_exploits, close, sync_exploits,
}
use vuln4shift_backend.Expsync.Statement.{separated, Marshals, has-Marshals, trimmed-arg_list}

-- The single quote.
abbrev pub quote : ℕ
quote = 39

-- The texts of a row of the statement, without a single quote.
abbrev pub Unquoted : Str → Str → Type 0
Unquoted cve json = Lacks quote cve × Lacks quote json

abbrev pub or_else : Option Str → Option Str → Option Str
or_else none y = y
or_else (some x) y = some x

abbrev pub names : List Cve → List Str
names cves = map (λ cve. cve.name) cves

-- What a database is taken to do: which CVEs it has, and the exploit data of a CVE, if any.
pub record SyncLaws {D E : Type 0} (db : Database D E) : Type 0 where
  pub has_cve : D → Str → Bool
  pub data_of : D → Str → Option Str
  pub begun :
      (d : D) (n : Str)
      → (has_cve (db.begin_ d) n ≡ has_cve d n) × (data_of (db.begin_ d) n ≡ data_of d n)
  pub committed :
      (d d' : D)
      → db.commit d ≡ (d', ok tt)
      → (n : Str) → (has_cve d' n ≡ has_cve d n) × (data_of d' n ≡ data_of d n)
  pub found :
      (rows : List Cve) (d d' : D)
      → db.find_exploited d ≡ (d', ok rows)
      → (n : Str)
      → (has_cve d' n ≡ has_cve d n)
        × (data_of d' n ≡ data_of d n)
        × (contains (names rows) n ≡ is_some (data_of d n))
  pub cleared :
      (rows : List Cve) (d d' : D) (k : ℕ)
      → db.clear_exploit_data rows d ≡ (d', ok k)
      → (n : Str)
      → (has_cve d' n ≡ has_cve d n)
        × (data_of d' n ≡ (if contains (names rows) n then none else data_of d n))
  -- rows whose texts are quoted as they stand
  pub updated :
      (rows : GoMap Str Str) (d d' : D) (k : ℕ)
      → IsDistinct (keys rows)
      → AllEntries Unquoted rows
      → db.exec (update_statement (separated rows)) d ≡ (d', ok k)
      → (n : Str)
      → (has_cve d' n ≡ has_cve d n)
        × (data_of d' n
            ≡ (if has_cve d n then or_else (lookup n rows) (data_of d n) else data_of d n))

contains-pruned :
    (exploits : Exploits) (cves : List Cve) (n : Str)
    → contains (names (select (λ cve. not (has cve.name exploits)) cves)) n
      ≡ (contains (names cves) n && not (has n exploits))
contains-pruned exploits [] n = refl
contains-pruned exploits (cve ∷ cves) n = elim (Bool-cases (cve.name == n)) [
  | inl same ↦
      let e : cve.name ≡ n = eq_sound cve.name n same in
      ground (arith, contains-pruned exploits cves n, same, ap (λ k. has k exploits) e)
  | inr other ↦ ground (arith, contains-pruned exploits cves n, other)
]

module _ {D E : Type 0} (db : Database D E) (laws : SyncLaws db)
    (marshal : List ExploitMetadata → Option Str) where
  -- The database has the CVEs `h`, with the exploit data `g`.
  abbrev Sees : (Str → Bool) → (Str → Option Str) → D → Type 0
  Sees h g d = (n : Str) → (laws.has_cve d n ≡ h n) × (laws.data_of d n ≡ g n)

  wrapped-eq-ok :
      {A : Type 0} (why : E → SyncError E) (r : D × Result E A) (d' : D) (a : A)
      → wrapped db marshal why r ≡ (d', ok a)
      → r ≡ (d', ok a)
  unfolding wrapped
  wrapped-eq-ok why (d, ok b) d' a e = ground (arith, e)
  wrapped-eq-ok why (d, err x) d' a e = ground (arith, e)

  -- A step whose successful runs do what is said.
  step-Holds :
      {A : Type 0} (P : D → Type 0) (Q : A → D → Type 0) (why : E → SyncError E)
      (run : D → D × Result E A)
      → ((d d' : D) (a : A) → P d → run d ≡ (d', ok a) → Q a d')
      → Holds P (named db marshal why run) Q Any
  unfolding named
  step-Holds P Q why run k =
      Holds-ok P Q (named db marshal why run)
        λ d d' a p e. k d d' a p (wrapped-eq-ok why (run d) d' a e)

  module _ (h : Str → Bool) where
    -- The data of the CVEs in a list is cleared, and that of those that the file has not.
    abbrev without : List Str → (Str → Option Str) → Str → Option Str
    without gone g n = if contains gone n then none else g n

    abbrev only_of : Exploits → (Str → Option Str) → Str → Option Str
    only_of exploits g n = if has n exploits then g n else none

    remove-Holds :
        (g : Str → Option Str) (cves : List Cve)
        → Holds
            (Sees h g)
            (remove_exploit_data db marshal cves)
            (λ _. Sees h (without (names cves) g))
            Any
    unfolding remove_exploit_data
    remove-Holds g [] d s = s
    remove-Holds g (cve ∷ cves) d s =
        step-Holds (Sees h g) (λ _. Sees h (without (names (cve ∷ cves)) g)) not_pruned
          (db.clear_exploit_data (cve ∷ cves))
          (λ d d' k s e n. ground (arith, laws.cleared (cve ∷ cves) d d' k e n, s n)) d s

    prune-Holds :
        (g : Str → Option Str) (exploits : Exploits)
        → Holds
            (Sees h g)
            (prune_cves_metadata db marshal exploits)
            (λ _. Sees h (only_of exploits g))
            Any
    unfolding prune_cves_metadata
    prune-Holds g exploits =
        let Found : List Cve → D → Type 0 =
          λ cves d. Sees h g d × ((n : Str) → contains (names cves) n ≡ is_some (g n)) in
        let stale : List Cve → List Cve = select (λ cve. not (has cve.name exploits)) in
        Holds-bind Any (Sees h g) Found (λ _. Sees h (only_of exploits g))
          (named db marshal not_pruned db.find_exploited)
          (λ cves. remove_exploit_data db marshal (stale cves))
          (step-Holds (Sees h g) Found not_pruned db.find_exploited λ d d' cves s e. (
            (λ n. ground (arith, laws.found cves d d' e n, s n)),
            λ n. ground (arith, laws.found cves d d' e n, s n),
          ))
          λ cves d (s, f).
            Outcome-map Any (λ _. Sees h (without (names (stale cves)) g))
              (λ _. Sees h (only_of exploits g)) (remove_exploit_data db marshal (stale cves) d)
              (λ _ d' s' n. ground (arith, s' n, contains-pruned exploits cves n, f n))
              (remove-Holds g (stale cves) d s)

    abbrev updated_by : GoMap Str Str → (Str → Option Str) → Str → Option Str
    updated_by rows g n = if h n then or_else (lookup n rows) (g n) else g n

    exec-Holds :
        (g : Str → Option Str) (rows : GoMap Str Str) (args : Str)
        → IsDistinct (keys rows)
        → AllEntries Unquoted rows
        → trimmed args ≡ separated rows
        → Holds
            (Sees h g)
            (exec_update db marshal (some args))
            (λ _. Sees h (updated_by rows g))
            Any
    unfolding exec_update
    exec-Holds g rows args once plain same =
        step-Holds (Sees h g) (λ _. Sees h (updated_by rows g)) not_updated
          (db.exec (update_statement (trimmed args)))
          λ d d' k s e n.
            let e' = sym (ap (λ t. db.exec (update_statement t) d) same) ∙ e in
            ground (arith, laws.updated rows d d' k once plain e' n, s n)

    update-Holds :
        (g : Str → Option Str) (exploits : Exploits) (rows : GoMap Str Str)
        → Marshals marshal exploits rows
        → IsDistinct (keys rows)
        → AllEntries Unquoted rows
        → Holds
            (Sees h g)
            (update_exploits_metadata db marshal exploits)
            (λ _. Sees h (updated_by rows g))
            Any
    unfolding update_exploits_metadata lookup
    update-Holds g [] [] m once plain d s = λ n. ground (arith, s n)
    update-Holds g [] (row ∷ rows) m once plain d s = ground (arith, m)
    update-Holds g (x ∷ exploits) [] m once plain d s = absurd (ground (arith, m))
    update-Holds g (x ∷ exploits) ((cve, json) ∷ rows) m once plain d s =
        let (args, built, same) = trimmed-arg_list marshal cve json rows (x ∷ exploits) m in
        subst
          (λ o.
            Outcome (λ _. Sees h (updated_by ((cve, json) ∷ rows) g)) Any
              (exec_update db marshal o d))
          (sym built) (exec-Holds g ((cve, json) ∷ rows) args once plain same d s)

    commit-Holds :
        (g : Str → Option Str)
        → Holds (Sees h g) (named db marshal not_committed db.commit) (λ _. Sees h g) Any
    commit-Holds g =
        step-Holds (Sees h g) (λ _. Sees h g) not_committed db.commit
          λ d d' u s e n. let (k, l) = laws.committed d d' e n in (k ∙ (s n).0, l ∙ (s n).1)

    store-Holds :
        (g : Str → Option Str) (exploits : Exploits) (rows : GoMap Str Str)
        → Marshals marshal exploits rows
        → IsDistinct (keys rows)
        → AllEntries Unquoted rows
        → Holds
            (Sees h g)
            (store_exploits db marshal (ok exploits))
            (λ _. Sees h (updated_by rows (only_of exploits g)))
            Any
    unfolding store_exploits
    store-Holds g exploits rows m once plain =
        let kept = only_of exploits g in
        let final : Unit {0} → D → Type 0 = λ _. Sees h (updated_by rows kept) in
        let commit : Action D (SyncError E) (Unit {0}) = named db marshal not_committed db.commit in
        Holds-bind Any (Sees h g) (λ _. Sees h kept) final (prune_cves_metadata db marshal exploits)
          (λ _. update_exploits_metadata db marshal exploits >>= λ _. commit)
          (prune-Holds g exploits)
          λ _.
            Holds-bind Any (Sees h kept) (λ _. Sees h (updated_by rows kept)) final
              (update_exploits_metadata db marshal exploits) (λ _. commit)
              (update-Holds kept exploits rows m once plain)
              λ _. commit-Holds (updated_by rows kept)

  close-Outcome :
      (Q : D → Type 0) (r : D × Result (SyncError E) (Unit {0}))
      → Outcome (λ _. Q) Any r
      → Outcome (λ _. Q) Any (close db marshal r)
  unfolding close
  close-Outcome Q (d, ok u) h = h
  close-Outcome Q (d, err e) h = tt

  -- If the texts of a file's exploits hold no single quote and a sync with it ends with no error, then
  -- every CVE of the database has the exploit data that the file gives it, and none if the file does not
  -- name it.
  pub sync_exploits-data :
      {W : Type 0} (get : W → W × Result FetchError Exploits) (w : W) (exploits : Exploits)
      (rows : GoMap Str Str) (d d' : D)
      → (get w).1 ≡ ok exploits
      → Marshals marshal exploits rows
      → IsDistinct (keys rows)
      → AllEntries Unquoted rows
      → (sync_exploits db marshal get w d).1 ≡ d'
      → (sync_exploits db marshal get w d).2 ≡ ok tt
      → (n : Str) → laws.has_cve d n ≡ true
      → (laws.has_cve d' n ≡ true) × (laws.data_of d' n ≡ lookup n rows)
  unfolding sync_exploits
  sync_exploits-data get w exploits rows d d' got m once plain state fine n there =
      let h = laws.has_cve d in
      let g = laws.data_of d in
      let Q : D → Type 0 = Sees h (updated_by h rows (only_of h exploits g)) in
      let ended : Outcome (λ _. Q) Any
          (close db marshal (store_exploits db marshal (get w).1 (db.begin_ d))) =
        subst
          (λ reply.
            Outcome (λ _. Q) Any (close db marshal (store_exploits db marshal reply (db.begin_ d))))
          (sym got)
          (close-Outcome Q _
            (store-Holds h g exploits rows m once plain (db.begin_ d) (laws.begun d))) in
      let sees : Q d' = subst (Outcome (λ _. Q) Any) (λ i. (state i, fine i)) ended in
      ground (arith, sees n, there, has-Marshals marshal exploits rows n m)
