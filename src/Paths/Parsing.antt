-- ===== src/Paths/Parsing.antt =====
-- A path whose components are sound parses back from its text.
use nexigon.Base.{ℕ, ◌≡◌, refl, ap, ◌∙◌, List, [], ◌∷◌, false, All}
use nexigon.Paths.{
  join, parsed, asset_parts, asset_filename, any_empty, version_parts, package_parts,
  parse_asset_path, parse_version_path, parse_package_path, print_asset_path, print_version_path,
  print_package_path,
}
use nexigon.Paths.Splitting.{IsPart, IsSome, split-join}

-- A component that is not empty and has no slash.
abbrev pub IsComponent : List ℕ → Type 0
IsComponent [] = ⊥
IsComponent (c ∷ cs) = IsPart (c ∷ cs)

without_slash : (p : List ℕ) → IsComponent p → IsPart p
without_slash [] h = absurd h
without_slash (c ∷ cs) h = h

without_slashes : (ps : List (List ℕ)) → All IsComponent ps → All IsPart ps
without_slashes [] h = tt
without_slashes (p ∷ ps) (h, hs) = (without_slash p h, without_slashes ps hs)

none_empty : (ps : List (List ℕ)) → All IsComponent ps → any_empty ps ≡ false
none_empty [] h = refl
none_empty ([] ∷ ps) (h, hs) = absurd h
none_empty ((c ∷ cs) ∷ ps) (h, hs) = none_empty ps hs

package_parts-components :
    (r p : List ℕ)
    → All IsComponent (r ∷ p ∷ [])
    → package_parts (r ∷ p ∷ []) ≡ parsed (record { repository = r; package_part = p })
package_parts-components [] p (h, _) = absurd h
package_parts-components (c ∷ cs) [] (_, (h, _)) = absurd h
package_parts-components (c ∷ cs) (d ∷ ds) h = refl

version_parts-components :
    (r p t : List ℕ)
    → All IsComponent (r ∷ p ∷ t ∷ [])
    → version_parts (r ∷ p ∷ t ∷ []) ≡ parsed (record { repository = r; package_part = p; tag = t })
version_parts-components [] p t (h, _) = absurd h
version_parts-components (c ∷ cs) [] t (_, (h, _)) = absurd h
version_parts-components (c ∷ cs) (d ∷ ds) [] (_, (_, (h, _))) = absurd h
version_parts-components (c ∷ cs) (d ∷ ds) (e ∷ es) h = refl

asset_filename-components :
    (r p t : List ℕ) (fs : List (List ℕ))
    → IsSome fs
    → All IsComponent fs
    → asset_filename r p t fs
      ≡ parsed (record { repository = r; package_part = p; tag = t; filename = join fs })
asset_filename-components r p t [] h a = absurd h
asset_filename-components r p t (f ∷ fs) h a = rw (none_empty (f ∷ fs) a) refl

asset_parts-components :
    (r p t : List ℕ) (fs : List (List ℕ))
    → IsSome fs
    → All IsComponent (r ∷ p ∷ t ∷ fs)
    → asset_parts (r ∷ p ∷ t ∷ fs)
      ≡ parsed (record { repository = r; package_part = p; tag = t; filename = join fs })
asset_parts-components [] p t fs s (h, _) = absurd h
asset_parts-components (c ∷ cs) [] t fs s (_, (h, _)) = absurd h
asset_parts-components (c ∷ cs) (d ∷ ds) [] fs s (_, (_, (h, _))) = absurd h
asset_parts-components (c ∷ cs) (d ∷ ds) (e ∷ es) fs s (_, (_, (_, h))) =
    asset_filename-components (c ∷ cs) (d ∷ ds) (e ∷ es) fs s h

-- A package path of two components, none empty and none with a slash, parses back from its text.
pub parse_package_path-print :
    (r p : List ℕ)
    → All IsComponent (r ∷ p ∷ [])
    → parse_package_path (print_package_path (record { repository = r; package_part = p }))
      ≡ parsed (record { repository = r; package_part = p })
unfolding parse_package_path print_package_path join
parse_package_path-print r p h =
    ap package_parts (split-join (r ∷ p ∷ []) tt (without_slashes (r ∷ p ∷ []) h))
    ∙ package_parts-components r p h

-- A version path of three components, none empty and none with a slash, parses back from its text.
pub parse_version_path-print :
    (r p t : List ℕ)
    → All IsComponent (r ∷ p ∷ t ∷ [])
    → parse_version_path (print_version_path (record { repository = r; package_part = p; tag = t }))
      ≡ parsed (record { repository = r; package_part = p; tag = t })
unfolding parse_version_path print_version_path join
parse_version_path-print r p t h =
    ap version_parts (split-join (r ∷ p ∷ t ∷ []) tt (without_slashes (r ∷ p ∷ t ∷ []) h))
    ∙ version_parts-components r p t h

-- An asset path of three components and a file name of one component or more, joined by slashes, none
-- empty and none with a slash, parses back from its text.
pub parse_asset_path-print :
    (r p t : List ℕ) (fs : List (List ℕ))
    → IsSome fs
    → All IsComponent (r ∷ p ∷ t ∷ fs)
    → parse_asset_path (
        print_asset_path (record { repository = r; package_part = p; tag = t; filename = join fs }))
      ≡ parsed (record { repository = r; package_part = p; tag = t; filename = join fs })
unfolding parse_asset_path print_asset_path join
parse_asset_path-print r p t [] s h = absurd s
parse_asset_path-print r p t (f ∷ fs) s h =
    ap asset_parts (split-join (r ∷ p ∷ t ∷ f ∷ fs) tt (without_slashes (r ∷ p ∷ t ∷ f ∷ fs) h))
    ∙ asset_parts-components r p t (f ∷ fs) s h
