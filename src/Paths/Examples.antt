-- ===== src/Paths/Examples.antt =====
-- Paths that parse, and the theorems at them.
use nexigon.Base.{ℕ, ◌≡◌, refl, List, [], ◌∷◌}
use nexigon.Paths.{
  AssetPath, VersionPath, PackagePath, parsed, split, join, parse_asset_path, parse_version_path,
  parse_package_path, print_asset_path, print_version_path, print_package_path,
}
use nexigon.Paths.Printing.{print_version_path-parse, print_package_path-parse}
use nexigon.Paths.Parsing.{parse_asset_path-print}

-- `a/b/c/d/e`, with a file name of two components.
abbrev asset_text : List ℕ
asset_text = 97 ∷ 47 ∷ 98 ∷ 47 ∷ 99 ∷ 47 ∷ 100 ∷ 47 ∷ 101 ∷ []

abbrev asset : AssetPath
asset = record {
  repository = 97 ∷ [];
  package_part = 98 ∷ [];
  tag = 99 ∷ [];
  filename = 100 ∷ 47 ∷ 101 ∷ [];
}

abbrev version : VersionPath
version = record { repository = 97 ∷ []; package_part = 98 ∷ []; tag = 99 ∷ [] }

abbrev package_path : PackagePath
package_path = record { repository = 97 ∷ []; package_part = 98 ∷ [] }

print_version_path-parse_example : print_version_path version ≡ 97 ∷ 47 ∷ 98 ∷ 47 ∷ 99 ∷ []
unfolding parse_version_path split join
print_version_path-parse_example =
    print_version_path-parse (97 ∷ 47 ∷ 98 ∷ 47 ∷ 99 ∷ []) version refl

print_package_path-parse_example : print_package_path package_path ≡ 97 ∷ 47 ∷ 98 ∷ []
unfolding parse_package_path split join
print_package_path-parse_example = print_package_path-parse (97 ∷ 47 ∷ 98 ∷ []) package_path refl

parse_asset_path-print_example : parse_asset_path (print_asset_path asset) ≡ parsed asset
unfolding join
parse_asset_path-print_example =
    parse_asset_path-print (97 ∷ []) (98 ∷ []) (99 ∷ []) ((100 ∷ []) ∷ (101 ∷ []) ∷ []) tt
      ((refl, tt), ((refl, tt), ((refl, tt), ((refl, tt), ((refl, tt), tt)))))
