-- ===== src/Tests/PyxisImage.antt =====
-- A database whose state is its table `image_cve`, with the CVEs 1 to 3.
use mathlib.Core.Path.{subst}
use vuln4shift_backend.Prelude.{
  ℕ, ◌≡◌, refl, ap, Bool, true, false, not, ◌&&◌, ◌||◌, none, List, [], ◌∷◌, ◌++◌, arith,
  if◌then◌else◌, Str, codes, str_eq, str_beq, nat_eq, ◌==◌, nat_beq, contains, Result, ok, err, All,
  All-append,
}
use vuln4shift_backend.Prelude.GoMap.{lookup, insert, delete}
use vuln4shift_backend.Models.{Cve, ImageCve}
use vuln4shift_backend.Pyxis.Cache.{Maps, image_cve_map}
use vuln4shift_backend.Pyxis.Image.{Database, Client, Config, Tx, link_cves, split_cves}
use vuln4shift_backend.Pyxis.Image.Diff.{linked}
use vuln4shift_backend.Pyxis.Image.Links.{CveLaws, link_cves-links}

abbrev Table : Type 0
Table = ℕ → ℕ → Bool

abbrev row_if : Bool → ℕ → ℕ → List ImageCve
row_if true i c = record { image_id = i; cve_id = c } ∷ []
row_if false i c = []

abbrev table_db : Database Table ℕ
table_db = record {
  begin_ = λ d. d;
  commit = λ d. (d, ok tt);
  rollback = λ d. d;
  create_repository = λ r d. (d, ok r);
  save_repository = λ r d. (d, ok tt);
  create_arch = λ a d. (d, ok a);
  create_image = λ i d. (d, ok i);
  save_image = λ i d. (d, ok tt);
  create_cves = λ cs d. (d, ok cs);
  find_image_cves =
      λ i d. (d, ok (row_if (d i 1) i 1 ++ (row_if (d i 2) i 2 ++ row_if (d i 3) i 3)));
  create_image_cves = λ rows d. ((λ i c. d i c || linked rows i c), ok tt);
  delete_image_cves = λ rows d. ((λ i c. d i c && not (linked rows i c)), ok tt);
  find_repository_images = λ i d. (d, ok []);
  create_repository_images = λ rows d. (d, ok tt);
  delete_repository_images = λ rows d. (d, ok tt);
  update_repository_image = λ row d. (d, ok tt);
}

row_if-owned : (b : Bool) (i c : ℕ) → All (λ row. row.image_id ≡ i) (row_if b i c)
row_if-owned true i c = (refl, tt)
row_if-owned false i c = tt

abbrev rows_of : Result ℕ (List ImageCve) → List ImageCve
rows_of (ok rows) = rows
rows_of (err e) = []

abbrev table_laws : CveLaws table_db
table_laws = record {
  links = λ d. d;
  queried = λ i d k c. refl;
  owned = λ i d rows e. subst (All (λ row. row.image_id ≡ i)) (ap rows_of e) (
      All-append _ (row_if (d i 1) i 1) _ (row_if-owned (d i 1) i 1) (
        All-append _ (row_if (d i 2) i 2) _ (row_if-owned (d i 2) i 2) (row_if-owned (d i 3) i 3)));
  created = λ rows d e i c. refl;
  deleted = λ rows d e i c. refl;
}

-- Image 1 has the CVE 1, and Pyxis gives it the CVEs 2 and 3.
abbrev old_table : Table
old_table i c = i == 1 && c == 1

abbrev with_id : ℕ → Str → Cve
with_id id name = record {
  id = id;
  name = name;
  description = [];
  severity = [];
  cvss3_score = 0;
  cvss3_metrics = [];
  cvss2_score = 0;
  cvss2_metrics = [];
  public_date = none;
  modified_date = none;
  redhat_url = [];
  secondary_url = [];
  exploit_data = [];
}

abbrev cve_maps : Maps
cve_maps = record {
  repos = [];
  pyxis_id_repos = [];
  archs = [];
  images = [];
  cves = (codes "CVE-2-2", with_id 2 (codes "CVE-2-2")) ∷ [];
}

abbrev tx : Tx Table ℕ
tx = record {
  db = old_table;
  world = 0;
  pending = record {
    archs_pending = [];
    images_pending = [];
    cves_pending = (codes "CVE-3-3", with_id 3 (codes "CVE-3-3")) ∷ [];
  };
}

abbrev idle : Client ℕ ℕ
idle = record { repo_images = λ r n w. (w, ok []); image_cves = λ i w. (w, ok []) }

abbrev all_on : Config
all_on = record { skip_image_cve_sync = false; force_sync = false }

abbrev new_cves : List Str
new_cves = codes "CVE-2-2" ∷ codes "CVE-3-3" ∷ []

abbrev new_table : Table
new_table i c =
    (old_table i c
      || linked (record { image_id = 1; cve_id = 2 } ∷ record { image_id = 1; cve_id = 3 } ∷ []) i
          c)
    && not (linked (record { image_id = 1; cve_id = 1 } ∷ []) i c)

abbrev two_three : List ℕ
two_three = 2 ∷ 3 ∷ []

link_cves-links_example :
    new_table 1 2 ≡ (if nat_beq 1 1 then contains two_three 2 else old_table 1 2)
unfolding link_cves split_cves image_cve_map insert lookup delete str_beq
link_cves-links_example =
    link_cves-links table_db idle all_on cve_maps table_laws 1 new_cves two_three
      (record { image_id = 1; cve_id = 1 } ∷ []) tx
      (record { db = new_table; world = 0; pending = tx.pending }) refl (refl, (refl, tt)) refl
      (λ c. ground arith) refl 1 2
