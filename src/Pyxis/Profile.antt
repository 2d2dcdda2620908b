-- ===== src/Pyxis/Profile.antt =====
-- The profiles of repositories to sync (pyxis/profile.go), after the file is read and decoded.
use vuln4shift_backend.Prelude.{
  ◌≡◌, refl, inl, inr, Bool, true, false, ◌||◌, Option, none, some, List, [], ◌∷◌, arith,
  if◌then◌else◌, Str, codes, str_eq, ◌==◌, contains, Bool-cases,
}
use vuln4shift_backend.Prelude.GoMap.{GoMap, lookup, insert, has, lookup-insert}

pub record Registry : Type 0 where
  pub name : Str
  pub repositories : List Str

pub record Profile : Type 0 where
  pub name : Str
  pub registries : List Registry

abbrev pub RepositorySet : Type 0
RepositorySet = GoMap Str (Unit {0})

abbrev pub ProfileMap : Type 0
ProfileMap = GoMap Str (GoMap Str RepositorySet)

unfoldable pub repository_set : List Str → RepositorySet → RepositorySet
repository_set [] m = m
repository_set (repository ∷ repositories) m = repository_set repositories (insert repository tt m)

unfoldable pub registry_map : List Registry → GoMap Str RepositorySet → GoMap Str RepositorySet
unfolding repository_set
registry_map [] m = m
registry_map (registry ∷ registries) m =
    registry_map registries (insert registry.name (repository_set registry.repositories []) m)

-- `parseProfiles`: a profile or a registry that stands twice in its list is that of the last place.
unfoldable pub profile_map : List Profile → ProfileMap → ProfileMap
unfolding registry_map
profile_map [] m = m
profile_map (profile ∷ profiles) m =
    profile_map profiles (insert profile.name (registry_map profile.registries []) m)

-- The check of the configured profile; `none` ends the program.
unfoldable pub parse_profiles : Str → List Profile → Option ProfileMap
unfolding profile_map
parse_profiles profile profiles =
    let m = profile_map profiles [] in
    if profile == codes "all" then some m else if has profile m then some m else none

-- A lookup in a map that is missing is one in the nil map.
abbrev pub or_nil : {V : Type 0} → Option (GoMap Str V) → GoMap Str V
or_nil none = []
or_nil (some m) = m

unfoldable pub repository_in_profile : Str → ProfileMap → Str → Str → Bool
repository_in_profile profile profiles registry repository =
    if profile == codes "all"
    then true
    else has repository (or_nil (lookup registry (or_nil (lookup profile profiles))))

-- The last profile or registry of a name, and whether it lists a repository.
abbrev pub listed_by : List Registry → Str → Str → Bool → Bool
listed_by [] registry repository so_far = so_far
listed_by (r ∷ rs) registry repository so_far =
    listed_by rs registry repository
      (if r.name == registry then contains r.repositories repository else so_far)

abbrev pub listed : List Profile → Str → Str → Str → Bool → Bool
listed [] profile registry repository so_far = so_far
listed (p ∷ ps) profile registry repository so_far =
    listed ps profile registry repository
      (if p.name == profile then listed_by p.registries registry repository false else so_far)

repository_set-has :
    (repositories : List Str) (m : RepositorySet) (r : Str)
    → has r (repository_set repositories m) ≡ (contains repositories r || has r m)
unfolding repository_set
repository_set-has [] m r = refl
repository_set-has (x ∷ xs) m r =
    ground (arith, repository_set-has xs (insert x tt m) r, lookup-insert x r tt m)

registry_map-has :
    (registries : List Registry) (m : GoMap Str RepositorySet) (g r : Str)
    → has r (or_nil (lookup g (registry_map registries m)))
      ≡ listed_by registries g r (has r (or_nil (lookup g m)))
unfolding registry_map lookup
registry_map-has [] m g r = refl
registry_map-has (x ∷ xs) m g r =
    let set = repository_set x.repositories [] in
    let ih = registry_map-has xs (insert x.name set m) g r in
    elim (Bool-cases (x.name == g)) [
      | inl same ↦
          ground (arith, ih, lookup-insert x.name g set m, repository_set-has x.repositories [] r)
      | inr other ↦ ground (arith, ih, lookup-insert x.name g set m)
    ]

profile_map-has :
    (profiles : List Profile) (m : ProfileMap) (p g r : Str)
    → has r (or_nil (lookup g (or_nil (lookup p (profile_map profiles m)))))
      ≡ listed profiles p g r (has r (or_nil (lookup g (or_nil (lookup p m)))))
unfolding profile_map lookup
profile_map-has [] m p g r = refl
profile_map-has (x ∷ xs) m p g r =
    let registries = registry_map x.registries [] in
    let ih = profile_map-has xs (insert x.name registries m) p g r in
    elim (Bool-cases (x.name == p)) [
      | inl same ↦
          ground
            (arith, ih, lookup-insert x.name p registries m, registry_map-has x.registries [] g r)
      | inr other ↦ ground (arith, ih, lookup-insert x.name p registries m)
    ]

-- If the profiles are accepted, a repository is in the configured profile exactly when that is "all"
-- or the last profile of its name has a last registry of the repository's, which lists it.
pub repository_in_profile-listed :
    (profile : Str) (profiles : List Profile) (m : ProfileMap) (registry repository : Str)
    → parse_profiles profile profiles ≡ some m
    → repository_in_profile profile m registry repository
      ≡ (profile == codes "all" || listed profiles profile registry repository false)
unfolding repository_in_profile parse_profiles lookup
repository_in_profile-listed profile profiles m registry repository e =
    ground (arith, profile_map-has profiles [] profile registry repository)
