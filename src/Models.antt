-- ===== src/Models.antt =====
-- The rows of the database (base/models/models.go) and the enumeration of severities
-- (base/models/types.go). A serial key is a natural number; a timestamp counts from Go's zero time.
use vuln4shift_backend.Prelude.{ℕ, Option, Str, codes}

-- A Go string type: a scan of the database accepts any text.
abbrev pub Severity : Type 0
Severity = Str

abbrev pub not_set : Severity
not_set = codes "NotSet"

abbrev pub severity_none : Severity
severity_none = codes "None"

abbrev pub low : Severity
low = codes "Low"

abbrev pub medium : Severity
medium = codes "Medium"

abbrev pub moderate : Severity
moderate = codes "Moderate"

abbrev pub important : Severity
important = codes "Important"

abbrev pub high : Severity
high = codes "High"

abbrev pub critical : Severity
critical = codes "Critical"

pub record Arch : Type 0 where
  pub id : ℕ
  pub name : Str

pub record Repository : Type 0 where
  pub id : ℕ
  pub pyxis_id : Str
  pub modified_date : ℕ
  pub registry : Str
  pub repository : Str

-- A pointer that may be nil is an option.
pub record Image : Type 0 where
  pub id : ℕ
  pub pyxis_id : Str
  pub modified_date : ℕ
  pub manifest_list_digest : Option Str
  pub manifest_schema2_digest : Option Str
  pub docker_image_digest : Option Str
  pub arch_id : ℕ

-- `tags` is the text of the JSON.
pub record RepositoryImage : Type 0 where
  pub repository_id : ℕ
  pub image_id : ℕ
  pub tags : Option Str
  pub version : Option Str

-- A score counts thousandths, as `numeric(5,3)` does.
pub record Cve : Type 0 where
  pub id : ℕ
  pub name : Str
  pub description : Str
  pub severity : Severity
  pub cvss3_score : ℕ
  pub cvss3_metrics : Str
  pub cvss2_score : ℕ
  pub cvss2_metrics : Str
  pub public_date : Option ℕ
  pub modified_date : Option ℕ
  pub redhat_url : Str
  pub secondary_url : Str
  pub exploit_data : Str

pub record ImageCve : Type 0 where
  pub image_id : ℕ
  pub cve_id : ℕ

-- A cluster without its workload.
pub record ClusterLight : Type 0 where
  pub id : ℕ
  pub uuid : Str
  pub display_name : Str
  pub status : Str
  pub type_ : Str
  pub version : Str
  pub provider : Str
  pub account_id : ℕ
  pub cve_cache_critical : ℕ
  pub cve_cache_important : ℕ
  pub cve_cache_moderate : ℕ
  pub cve_cache_low : ℕ
  pub last_seen : ℕ
