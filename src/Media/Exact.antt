-- ===== src/Media/Exact.antt =====
-- live-runner/media.go: the paths of MediaMTX, built and read.
use livepeer_modules_transco.Prelude.{
  ◌≡◌, refl, sym, ap, ◌∙◌, Bool, true, false, not, ◌&&◌, ◌||◌, none, some, List, [], ◌∷◌, ◌++◌,
  if◌then◌else◌, &&_both, all, Bytes, codes, str_eq, str_eq_refl, str_eq→eq, is_empty, has_prefix,
  subst, invalid, Result, ok, reject-then,
}
use livepeer_modules_transco.Contract.Ident.{opaque_id}
use livepeer_modules_transco.Media.Path.{
  MediaLibrary, split, MediaPath, ingest_path, rendition_path, ingest_media_path,
  rendition_media_path, read_parts, parse_media_path,
}
use livepeer_modules_transco.Media.Texts.{
  join, join-split, split-avoids, split-append, opaque_id-avoids, is_plain_part,
  opaque_id-is_plain_part,
}

-- path.Clean keeps a path whose parts are neither empty nor dots.
abbrev pub KeepsPlain : MediaLibrary → Type 0
KeepsPlain m = (s : Bytes) → all is_plain_part (split b'/' s) ≡ true → m.clean s ≡ s

-- url.ParseQuery reads what url.QueryEscape wrote.
abbrev pub ReadsEscaped : MediaLibrary → Type 0
ReadsEscaped m =
    (s : Bytes)
    → m.parse_query (codes "token=" ++ m.query_escape s) ≡ some ((codes "token", s ∷ []) ∷ [])

-- IngestMediaPathV1 or RenditionMediaPathV1.
abbrev pub print_media_path : MediaPath → Result Bytes
print_media_path (ingest_path id) = ingest_media_path id
print_media_path (rendition_path id rendition) = rendition_media_path id rendition

pub if-some :
    {A : Type 0} (b : Bool) (x a : A) → (if b then some x else none) ≡ some a → (b ≡ true) × (x ≡ a)
if-some true x a h = (refl, cc)
if-some false x a h = cc

pub ingest_media_path-opaque :
    (id : Bytes) → opaque_id id ≡ true → ingest_media_path id ≡ ok (codes "ingest/" ++ id)
unfolding ingest_media_path
ingest_media_path-opaque id h = rw h refl

pub rendition_media_path-opaque :
    (id rendition : Bytes)
    → opaque_id id ≡ true
    → opaque_id rendition ≡ true
    → rendition_media_path id rendition ≡ ok (codes "renditions/" ++ (id ++ b'/' ∷ rendition))
unfolding rendition_media_path
rendition_media_path-opaque id rendition h k = rw h (rw k refl)

read_parts-prints :
    (parts : List Bytes) (p : MediaPath)
    → read_parts parts ≡ some p
    → print_media_path p ≡ ok (join b'/' parts)
unfolding read_parts join
read_parts-prints [] p h = cc
read_parts-prints (a ∷ []) p h = cc
read_parts-prints (a ∷ b ∷ []) p h =
    let (both, same) = if-some (str_eq a (codes "ingest") && opaque_id b) (ingest_path b) p h in
    let (name, opaque) = &&_both (str_eq a (codes "ingest")) (opaque_id b) both in
    let kind = str_eq→eq a (codes "ingest") name in
    subst (λ q. print_media_path q ≡ ok (a ++ b'/' ∷ b)) same
      (ingest_media_path-opaque b opaque ∙ ap (λ k. ok (k ++ b'/' ∷ b)) (sym kind))
read_parts-prints (a ∷ b ∷ c ∷ []) p h =
    let (all_three, same) =
      if-some (str_eq a (codes "renditions") && (opaque_id b && opaque_id c)) (rendition_path b c) p
        h in
    let (name, both) =
      &&_both (str_eq a (codes "renditions")) (opaque_id b && opaque_id c) all_three in
    let (first, second) = &&_both (opaque_id b) (opaque_id c) both in
    let kind = str_eq→eq a (codes "renditions") name in
    subst (λ q. print_media_path q ≡ ok (a ++ b'/' ∷ (b ++ b'/' ∷ c))) same
      (rendition_media_path-opaque b c first second
        ∙ ap (λ k. ok (k ++ b'/' ∷ (b ++ b'/' ∷ c))) (sym kind))
read_parts-prints (a ∷ b ∷ c ∷ d ∷ rest) p h = cc

ingest-split :
    (id : Bytes)
    → opaque_id id ≡ true
    → split b'/' (codes "ingest/" ++ id) ≡ codes "ingest" ∷ id ∷ []
unfolding all
ingest-split id h =
    split-append b'/' (codes "ingest") id refl
    ∙ ap (λ parts. codes "ingest" ∷ parts) (split-avoids b'/' id (opaque_id-avoids b'/' id refl h))

rendition-split :
    (id rendition : Bytes)
    → opaque_id id ≡ true
    → opaque_id rendition ≡ true
    → split b'/' (codes "renditions/" ++ (id ++ b'/' ∷ rendition))
      ≡ codes "renditions" ∷ id ∷ rendition ∷ []
unfolding all
rendition-split id rendition h k =
    split-append b'/' (codes "renditions") (id ++ b'/' ∷ rendition) refl
    ∙ ap (λ parts. codes "renditions" ∷ parts)
        (split-append b'/' id rendition (opaque_id-avoids b'/' id refl h)
          ∙ ap (λ parts. id ∷ parts)
              (split-avoids b'/' rendition (opaque_id-avoids b'/' rendition refl k)))

plain-read :
    (m : MediaLibrary)
    → KeepsPlain m
    → (raw : Bytes) (parts : List Bytes) → split b'/' raw ≡ parts
    → all is_plain_part parts ≡ true
    → is_empty raw ≡ false
    → has_prefix raw (codes "/") ≡ false
    → parse_media_path m raw ≡ read_parts parts
unfolding parse_media_path
plain-read m keeps raw parts eq plain some_text relative =
    let kept = keeps raw (subst (λ ps. all is_plain_part ps ≡ true) (sym eq) plain) in
    let same : str_eq (m.clean raw) raw ≡ true = rw kept (str_eq_refl raw) in
    rw some_text (rw same (rw relative (ap read_parts eq)))

pub ingest_path-read :
    (m : MediaLibrary)
    → KeepsPlain m
    → (id : Bytes) → opaque_id id ≡ true
    → parse_media_path m (codes "ingest/" ++ id) ≡ some (ingest_path id)
unfolding is_empty has_prefix read_parts str_eq all
ingest_path-read m keeps id h =
    let plain : all is_plain_part (codes "ingest" ∷ id ∷ []) ≡ true =
      rw (opaque_id-is_plain_part id h) refl in
    plain-read m keeps (codes "ingest/" ++ id) (codes "ingest" ∷ id ∷ []) (ingest-split id h) plain
      refl refl
    ∙ rw h refl

rendition_path-read :
    (m : MediaLibrary)
    → KeepsPlain m
    → (id rendition : Bytes) → opaque_id id ≡ true
    → opaque_id rendition ≡ true
    → parse_media_path m (codes "renditions/" ++ (id ++ b'/' ∷ rendition))
      ≡ some (rendition_path id rendition)
unfolding is_empty has_prefix read_parts str_eq all
rendition_path-read m keeps id rendition h k =
    let plain : all is_plain_part (codes "renditions" ∷ id ∷ rendition ∷ []) ≡ true =
      rw (opaque_id-is_plain_part id h) (rw (opaque_id-is_plain_part rendition k) refl) in
    plain-read m keeps (codes "renditions/" ++ (id ++ b'/' ∷ rendition))
      (codes "renditions" ∷ id ∷ rendition ∷ []) (rendition-split id rendition h k) plain refl refl
    ∙ rw h (rw k refl)

-- An empty path has no prefix, and a path that is read is the join of its parts.
parse_media_path-parts :
    (m : MediaLibrary) (raw : Bytes) (p : MediaPath)
    → parse_media_path m raw ≡ some p
    → read_parts (split b'/' raw) ≡ some p
unfolding parse_media_path
parse_media_path-parts m raw p h =
    go (is_empty raw || (not (str_eq (m.clean raw) raw) || has_prefix raw (codes "/"))) h
  where
    go :
        (b : Bool)
        → (if b then none else read_parts (split b'/' raw)) ≡ some p
        → read_parts (split b'/' raw) ≡ some p
    go true e = cc
    go false e = e

-- What two checks that pass show.
both-passed : (a b : Bool) → (not a || not b) ≡ false → (a ≡ true) × (b ≡ true)
both-passed true true h = (refl, refl)
both-passed true false h = cc
both-passed false b h = cc

one-passed : (a : Bool) → not a ≡ false → a ≡ true
one-passed true h = refl
one-passed false h = cc

print-read :
    (m : MediaLibrary) (raw : Bytes) (p : MediaPath)
    → KeepsPlain m
    → print_media_path p ≡ ok raw
    → parse_media_path m raw ≡ some p
unfolding ingest_media_path rendition_media_path
print-read m raw (ingest_path id) keeps h =
    let (opaque, same) =
      reject-then (not (opaque_id id)) (invalid "invalid runner session ID")
        (ok (codes "ingest/" ++ id)) raw h in
    let whole : codes "ingest/" ++ id ≡ raw = cc in
    subst (λ x. parse_media_path m x ≡ some (ingest_path id)) whole
      (ingest_path-read m keeps id (one-passed (opaque_id id) opaque))
print-read m raw (rendition_path id rendition) keeps h =
    let (opaque, same) =
      reject-then (not (opaque_id id) || not (opaque_id rendition))
        (invalid "invalid runner session or rendition ID")
        (ok (codes "renditions/" ++ (id ++ b'/' ∷ rendition))) raw h in
    let (first, second) = both-passed (opaque_id id) (opaque_id rendition) opaque in
    let whole : codes "renditions/" ++ (id ++ b'/' ∷ rendition) ≡ raw = cc in
    subst (λ x. parse_media_path m x ≡ some (rendition_path id rendition)) whole
      (rendition_path-read m keeps id rendition first second)

-- parseMediaPathV1 reads a text as a path of MediaMTX exactly if IngestMediaPathV1 or
-- RenditionMediaPathV1 builds the text from what was read, where path.Clean keeps paths without
-- empty and dot parts.
pub parse_media_path-exact :
    (m : MediaLibrary) (raw : Bytes) (p : MediaPath)
    → KeepsPlain m
    → (parse_media_path m raw ≡ some p → print_media_path p ≡ ok raw)
      × (print_media_path p ≡ ok raw → parse_media_path m raw ≡ some p)
parse_media_path-exact m raw p keeps = (
  (λ h.
      read_parts-prints (split b'/' raw) p (parse_media_path-parts m raw p h)
      ∙ ap ok (join-split b'/' raw)),
  λ h. print-read m raw p keeps h,
)
