-- ===== src/Paths.antt =====
-- crates/libs/nexigon-common/src/lib.rs: the paths of packages, versions and assets. A string is the
-- list of its bytes; 47 is the slash.
pub mod Splitting
pub mod Printing
pub mod Parsing
mod Examples
use nexigon.Base.{ℕ, Bool, true, false, ◌||◌, List, [], ◌∷◌, ◌++◌, ◌==◌, if◌then◌else◌}

pub record AssetPath : Type 0 where
  pub repository : List ℕ
  pub package_part : List ℕ
  pub tag : List ℕ
  pub filename : List ℕ

pub record VersionPath : Type 0 where
  pub repository : List ℕ
  pub package_part : List ℕ
  pub tag : List ℕ

pub record PackagePath : Type 0 where
  pub repository : List ℕ
  pub package_part : List ℕ

pub data ComponentName : Type 0 where
  repository_name : ComponentName
  package_name : ComponentName
  version_tag : ComponentName

pub data PathError : Type 0 where
  missing : ComponentName → PathError
  must_not_be_empty : ComponentName → PathError
  missing_filename : PathError
  empty_filename_component : PathError
  too_many_parts : PathError

pub data Parsed {ℓ} (A : Type ℓ) : Type ℓ where
  parsed : A → Parsed A
  refused : PathError → Parsed A

abbrev pub and_then {ℓ κ} : {A : Type ℓ} {B : Type κ} → Parsed A → (A → Parsed B) → Parsed B
and_then (parsed a) k = k a
and_then (refused e) k = refused e

-- `str::split` at slashes, which has one part at least.
pub onto_first : ℕ → List (List ℕ) → List (List ℕ)
onto_first c [] = (c ∷ []) ∷ []
onto_first c (p ∷ ps) = (c ∷ p) ∷ ps

unfoldable pub split : List ℕ → List (List ℕ)
unfolding onto_first
split [] = [] ∷ []
split (c ∷ cs) = let parts = split cs in if c == 47 then [] ∷ parts else onto_first c parts

-- `[&str]::join` with slashes.
unfoldable pub join : List (List ℕ) → List ℕ
join [] = []
join (p ∷ []) = p
join (p ∷ q ∷ qs) = p ++ (47 ∷ join (q ∷ qs))

-- The component and the parts behind it.
abbrev pub next_path_component : List (List ℕ) → ComponentName → Parsed (List ℕ × List (List ℕ))
next_path_component [] name = refused (missing name)
next_path_component ([] ∷ ps) name = refused (must_not_be_empty name)
next_path_component ((c ∷ cs) ∷ ps) name = parsed (c ∷ cs, ps)

abbrev pub any_empty : List (List ℕ) → Bool
any_empty [] = false
any_empty ([] ∷ ps) = true
any_empty ((c ∷ cs) ∷ ps) = any_empty ps

abbrev pub asset_filename : (r p t : List ℕ) → List (List ℕ) → Parsed AssetPath
asset_filename r p t [] = refused missing_filename
asset_filename r p t (f ∷ fs) =
    if any_empty (f ∷ fs)
    then refused empty_filename_component
    else parsed (record { repository = r; package_part = p; tag = t; filename = join (f ∷ fs) })

abbrev pub asset_parts : List (List ℕ) → Parsed AssetPath
asset_parts parts = and_then (next_path_component parts repository_name) (λ (r, ps).
    and_then (next_path_component ps package_name) (λ (p, qs).
      and_then (next_path_component qs version_tag) (λ (t, fs). asset_filename r p t fs)))

unfoldable pub parse_asset_path : List ℕ → Parsed AssetPath
parse_asset_path path = asset_parts (split path)

abbrev pub version_end : (r p t : List ℕ) → List (List ℕ) → Parsed VersionPath
version_end r p t [] = parsed (record { repository = r; package_part = p; tag = t })
version_end r p t (q ∷ qs) = refused too_many_parts

abbrev pub version_parts : List (List ℕ) → Parsed VersionPath
version_parts parts = and_then (next_path_component parts repository_name) (λ (r, ps).
    and_then (next_path_component ps package_name) (λ (p, qs).
      and_then (next_path_component qs version_tag) (λ (t, rest). version_end r p t rest)))

unfoldable pub parse_version_path : List ℕ → Parsed VersionPath
parse_version_path path = version_parts (split path)

abbrev pub package_end : (r p : List ℕ) → List (List ℕ) → Parsed PackagePath
package_end r p [] = parsed (record { repository = r; package_part = p })
package_end r p (q ∷ qs) = refused too_many_parts

abbrev pub package_parts : List (List ℕ) → Parsed PackagePath
package_parts parts =
    and_then (next_path_component parts repository_name) (λ (r, ps).
      and_then (next_path_component ps package_name) (λ (p, rest). package_end r p rest))

unfoldable pub parse_package_path : List ℕ → Parsed PackagePath
parse_package_path path = package_parts (split path)

-- `Display` of the paths.
unfoldable pub print_asset_path : AssetPath → List ℕ
print_asset_path a = a.repository ++ (47 ∷ (a.package_part ++ (47 ∷ (a.tag ++ (47 ∷ a.filename)))))

unfoldable pub print_version_path : VersionPath → List ℕ
print_version_path v = v.repository ++ (47 ∷ (v.package_part ++ (47 ∷ v.tag)))

unfoldable pub print_package_path : PackagePath → List ℕ
print_package_path p = p.repository ++ (47 ∷ p.package_part)
