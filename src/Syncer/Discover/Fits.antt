-- ===== src/Syncer/Discover/Fits.antt =====
-- When two folders belong together, written out.
use imapsync.Base.{ℕ, Bool, ◌&&◌, not, map, ◌==◌, list_eq, nat_eq}
use imapsync.Base.Text.{is_empty}
use imapsync.Endpoint.{FolderInfo}

-- Both have a SPECIAL-USE attribute, the same one but for case.
abbrev pub fits_by_use : (ℕ → ℕ) → FolderInfo → FolderInfo → Bool
fits_by_use fold fa fb =
    not (is_empty fa.special_use)
    && not (is_empty fb.special_use)
    && map fold fa.special_use == map fold fb.special_use

-- Both have one name but for case.
abbrev pub fits_by_name : (ℕ → ℕ) → FolderInfo → FolderInfo → Bool
fits_by_name fold fa fb = map fold fa.name == map fold fb.name
