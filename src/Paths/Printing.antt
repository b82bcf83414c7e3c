-- ===== src/Paths/Printing.antt =====
-- A path that was accepted prints as the text it was parsed from.
use nexigon.Base.{ℕ, ◌≡◌, refl, ◌∙◌, subst, List, [], ◌∷◌, inl, inr, Bool-cases}
use nexigon.Paths.{
  split, join, Parsed, parsed, refused, AssetPath, VersionPath, PackagePath, asset_parts,
  asset_filename, any_empty, version_parts, package_parts, parse_asset_path, parse_version_path,
  parse_package_path, print_asset_path, print_version_path, print_package_path,
}
use nexigon.Paths.Splitting.{join-split}

-- An accepted value prints as the text.
abbrev Prints {ℓ} : {A : Type ℓ} → (A → List ℕ) → List ℕ → Parsed A → Type 0
Prints print s (parsed a) = print a ≡ s
Prints print s (refused e) = Unit {0}

package_parts-Prints : (ps : List (List ℕ)) → Prints print_package_path (join ps) (package_parts ps)
unfolding join print_package_path
package_parts-Prints [] = tt
package_parts-Prints ([] ∷ ps) = tt
package_parts-Prints ((c ∷ cs) ∷ []) = tt
package_parts-Prints ((c ∷ cs) ∷ [] ∷ ps) = tt
package_parts-Prints ((c ∷ cs) ∷ (d ∷ ds) ∷ []) = refl
package_parts-Prints ((c ∷ cs) ∷ (d ∷ ds) ∷ p ∷ ps) = tt

version_parts-Prints : (ps : List (List ℕ)) → Prints print_version_path (join ps) (version_parts ps)
unfolding join print_version_path
version_parts-Prints [] = tt
version_parts-Prints ([] ∷ ps) = tt
version_parts-Prints ((c ∷ cs) ∷ []) = tt
version_parts-Prints ((c ∷ cs) ∷ [] ∷ ps) = tt
version_parts-Prints ((c ∷ cs) ∷ (d ∷ ds) ∷ []) = tt
version_parts-Prints ((c ∷ cs) ∷ (d ∷ ds) ∷ [] ∷ ps) = tt
version_parts-Prints ((c ∷ cs) ∷ (d ∷ ds) ∷ (e ∷ es) ∷ []) = refl
version_parts-Prints ((c ∷ cs) ∷ (d ∷ ds) ∷ (e ∷ es) ∷ p ∷ ps) = tt

asset_filename-Prints :
    (r p t : List ℕ) (fs : List (List ℕ))
    → Prints print_asset_path (join (r ∷ p ∷ t ∷ fs)) (asset_filename r p t fs)
unfolding join print_asset_path
asset_filename-Prints r p t [] = tt
asset_filename-Prints r p t (f ∷ fs) = elim (Bool-cases (any_empty (f ∷ fs))) [
  | inl bad ↦ rw bad tt
  | inr good ↦ rw good refl
]

asset_parts-Prints : (ps : List (List ℕ)) → Prints print_asset_path (join ps) (asset_parts ps)
asset_parts-Prints [] = tt
asset_parts-Prints ([] ∷ ps) = tt
asset_parts-Prints ((c ∷ cs) ∷ []) = tt
asset_parts-Prints ((c ∷ cs) ∷ [] ∷ ps) = tt
asset_parts-Prints ((c ∷ cs) ∷ (d ∷ ds) ∷ []) = tt
asset_parts-Prints ((c ∷ cs) ∷ (d ∷ ds) ∷ [] ∷ ps) = tt
asset_parts-Prints ((c ∷ cs) ∷ (d ∷ ds) ∷ (e ∷ es) ∷ fs) =
    asset_filename-Prints (c ∷ cs) (d ∷ ds) (e ∷ es) fs

printed {ℓ} :
    {A : Type ℓ} (print : A → List ℕ) (s : List ℕ) (o : Parsed A) (a : A)
    → o ≡ parsed a
    → Prints print (join (split s)) o
    → print a ≡ s
printed print s o a e h = subst (Prints print (join (split s))) e h ∙ join-split s

-- The text of every accepted asset path is what its components print as.
pub print_asset_path-parse :
    (s : List ℕ) (a : AssetPath) → parse_asset_path s ≡ parsed a → print_asset_path a ≡ s
unfolding parse_asset_path
print_asset_path-parse s a e =
    printed print_asset_path s (asset_parts (split s)) a e (asset_parts-Prints (split s))

-- The text of every accepted version path is what its components print as.
pub print_version_path-parse :
    (s : List ℕ) (v : VersionPath) → parse_version_path s ≡ parsed v → print_version_path v ≡ s
unfolding parse_version_path
print_version_path-parse s v e =
    printed print_version_path s (version_parts (split s)) v e (version_parts-Prints (split s))

-- The text of every accepted package path is what its components print as.
pub print_package_path-parse :
    (s : List ℕ) (p : PackagePath) → parse_package_path s ≡ parsed p → print_package_path p ≡ s
unfolding parse_package_path
print_package_path-parse s p e =
    printed print_package_path s (package_parts (split s)) p e (package_parts-Prints (split s))
