-- ===== src/Media/Asset.antt =====
-- live-runner/hls.go: the asset of a rendition that a player asks for.
use mathlib.Core.List.{append_assoc}
use livepeer_modules_transco.Prelude.{
  ◌-◌, ◌≡◌, refl, sym, ap, ◌∙◌, Bool, true, false, not, ◌&&◌, ◌||◌, Option, none, some, List, [],
  ◌∷◌, ◌++◌, ◌==◌, inl, inr, if◌then◌else◌, Bool-cases, &&_both, &&_intro, length, drop, any, all,
  Bytes, codes, str_eq, is_empty, has_prefix, elem, subst, Result, ok, err,
}
use livepeer_modules_transco.Contract.Ident.{opaque_id}
use livepeer_modules_transco.Media.Path.{MediaLibrary, split, rendition_media_path}
use livepeer_modules_transco.Media.Texts.{
  join, join-split, split-append, opaque_id-avoids, is_plain_part, opaque_id-is_plain_part,
}
use livepeer_modules_transco.Media.Exact.{rendition_media_path-opaque}

-- strings.HasSuffix.
unfoldable has_suffix : Bytes → Bytes → Bool
unfolding str_eq
has_suffix s suffix = str_eq (drop (length s - length suffix) s) suffix

abbrev asset_suffixes : List Bytes
asset_suffixes = codes ".m3u8" ∷ codes ".mp4" ∷ codes ".m4s" ∷ codes ".ts" ∷ []

-- validHLSAssetNameV1.
unfoldable pub valid_asset_name : MediaLibrary → Bytes → Bool
unfolding is_empty str_eq has_prefix any has_suffix
valid_asset_name m name =
    not (is_empty name)
    && (str_eq (m.base name) name
        && (not (has_prefix name (codes ".")) && any (has_suffix name) asset_suffixes))

unfoldable pub asset_under : Result Bytes → Bytes → Option Bytes
asset_under (ok path) name = some (path ++ b'/' ∷ name)
asset_under (err e) name = none

-- The path of an asset with these parts, for the rendition names of the session's preset.
unfoldable pub asset_of_parts : MediaLibrary → Bytes → List Bytes → List Bytes → Option Bytes
unfolding opaque_id valid_asset_name elem rendition_media_path asset_under
asset_of_parts m id names (rendition ∷ name ∷ []) =
    if opaque_id rendition && (valid_asset_name m name && elem rendition names)
    then asset_under (rendition_media_path id rendition) name
    else none
asset_of_parts m id names _ = none

unfoldable pub rendition_asset_path : MediaLibrary → Bytes → List Bytes → Bytes → Option Bytes
unfolding is_empty str_eq has_prefix split asset_of_parts
rendition_asset_path m id names asset =
    if is_empty asset || (not (str_eq (m.clean asset) asset) || has_prefix asset (codes "/"))
    then none
    else asset_of_parts m id names (split b'/' asset)

if-else :
    {A : Type 0} (b : Bool) (x : Option A) (a : A) → (if b then none else x) ≡ some a → x ≡ some a
if-else true x a h = cc
if-else false x a h = h

if-then :
    {A : Type 0} (b : Bool) (x : Option A) (a : A)
    → (if b then x else none) ≡ some a
    → (b ≡ true) × (x ≡ some a)
if-then true x a h = (refl, h)
if-then false x a h = cc

valid_asset_name-is_plain_part :
    (m : MediaLibrary) (name : Bytes) → valid_asset_name m name ≡ true → is_plain_part name ≡ true
unfolding valid_asset_name is_empty has_prefix str_eq
valid_asset_name-is_plain_part m [] h = cc
valid_asset_name-is_plain_part m (c ∷ s) h =
    let (some_text, rest) =
      &&_both true
        (str_eq (m.base (c ∷ s)) (c ∷ s)
          && (not (has_prefix (c ∷ s) (codes ".")) && any (has_suffix (c ∷ s)) asset_suffixes))
        h in
    let (own_base, shape) =
      &&_both (str_eq (m.base (c ∷ s)) (c ∷ s))
        (not (has_prefix (c ∷ s) (codes ".")) && any (has_suffix (c ∷ s)) asset_suffixes) rest in
    let (visible, typed) =
      &&_both (not (has_prefix (c ∷ s) (codes "."))) (any (has_suffix (c ∷ s)) asset_suffixes)
        shape in
    elim (Bool-cases (c == b'.')) [
      | inl dot ↦
          let hidden : not (true && true) ≡ true =
            subst (λ b. not (b && true) ≡ true) dot visible in
          cc
      | inr other ↦ rw other refl
    ]

parts-inside :
    (m : MediaLibrary) (id : Bytes) (names parts : List Bytes) (path : Bytes)
    → opaque_id id ≡ true
    → asset_of_parts m id names parts ≡ some path
    → (path ≡ codes "renditions/" ++ (id ++ b'/' ∷ join b'/' parts))
      × (all is_plain_part parts ≡ true)
unfolding asset_of_parts join all
parts-inside m id names [] path o h = cc
parts-inside m id names (a ∷ []) path o h = cc
parts-inside m id names (a ∷ b ∷ c ∷ rest) path o h = cc
parts-inside m id names (a ∷ b ∷ []) path o h =
    let (checked, built) =
      if-then (opaque_id a && (valid_asset_name m b && elem a names))
        (asset_under (rendition_media_path id a) b) path h in
    let (opaque, rest) = &&_both (opaque_id a) (valid_asset_name m b && elem a names) checked in
    let (valid, listed) = &&_both (valid_asset_name m b) (elem a names) rest in
    let found =
      subst (λ r. asset_under r b ≡ some path) (rendition_media_path-opaque id a o opaque) built in
    let whole : (codes "renditions/" ++ (id ++ b'/' ∷ a)) ++ b'/' ∷ b ≡ path = cc in
    (
      sym whole ∙ ap (λ t. codes "renditions/" ++ t) (append_assoc id (b'/' ∷ a) (b'/' ∷ b)),
      &&_intro (is_plain_part a) (is_plain_part b && true) (opaque_id-is_plain_part a opaque)
          (rw (valid_asset_name-is_plain_part m b valid) refl),
    )

-- The assets that the proxy fetches for a session stand under the session's renditions: the path of
-- an accepted asset is `renditions/`, the session, and the asset as it was asked for, and none of
-- its parts is empty, `.` or `..`.
pub rendition_asset_path-inside :
    (m : MediaLibrary) (id : Bytes) (names : List Bytes) (asset path : Bytes)
    → opaque_id id ≡ true
    → rendition_asset_path m id names asset ≡ some path
    → (path ≡ codes "renditions/" ++ (id ++ b'/' ∷ asset))
      × (all is_plain_part (split b'/' path) ≡ true)
unfolding rendition_asset_path all
rendition_asset_path-inside m id names asset path o h =
    let parts =
      if-else
        (is_empty asset || (not (str_eq (m.clean asset) asset) || has_prefix asset (codes "/")))
        (asset_of_parts m id names (split b'/' asset)) path h in
    let (built, plain) = parts-inside m id names (split b'/' asset) path o parts in
    let whole : path ≡ codes "renditions/" ++ (id ++ b'/' ∷ asset) =
      built ∙ ap (λ t. codes "renditions/" ++ (id ++ b'/' ∷ t)) (join-split b'/' asset) in
    let pieces : split b'/' path ≡ codes "renditions" ∷ id ∷ split b'/' asset =
      ap (split b'/') whole
      ∙ split-append b'/' (codes "renditions") (id ++ b'/' ∷ asset) refl
      ∙ ap (λ ps. codes "renditions" ∷ ps)
          (split-append b'/' id asset (opaque_id-avoids b'/' id refl o)) in
    (
      whole,
      subst (λ ps. all is_plain_part ps ≡ true) (sym pieces)
          (&&_intro (is_plain_part id) (all is_plain_part (split b'/' asset))
            (opaque_id-is_plain_part id o) plain),
    )
