-- ===== src/Examples/Codecs.antt =====
-- A codec of the records of artifacts, for the examples: numbers, and lists behind their lengths.
use artifact_depot.Base.{
  ℕ, zero, suc, ◌≡◌, refl, ap, Bool, true, false, [], ◌∷◌, ◌++◌, Option, some, none, length, take,
  drop,
}
use artifact_depot.Base.Bytes.{Bytes}
use artifact_depot.Kv.Codec.{Codec, CodecLaws}
use artifact_depot.Service.Error.{ok}
use artifact_depot.Service.Artifact.{ArtifactRecord, TreeEntry, TreeEntryKind}

abbrev num : Bytes → ℕ
num [] = 0
num (n ∷ r) = n

abbrev rest : Bytes → Bytes
rest [] = []
rest (n ∷ r) = r

pub put_text : Bytes → Bytes → Bytes
put_text xs r = length xs ∷ xs ++ r

pub text : Bytes → Bytes
text r = take (num r) (rest r)

pub behind_text : Bytes → Bytes
behind_text r = drop (num r) (rest r)

pub text-put_text : (xs r : Bytes) → text (put_text xs r) ≡ xs
unfolding text put_text
text-put_text [] r = refl
text-put_text (x ∷ xs) r = ap (λ t. x ∷ t) (text-put_text xs r)

pub behind_text-put_text : (xs r : Bytes) → behind_text (put_text xs r) ≡ r
unfolding behind_text put_text
behind_text-put_text [] r = refl
behind_text-put_text (x ∷ xs) r = behind_text-put_text xs r

pub put_opt : Option Bytes → Bytes → Bytes
put_opt none r = 0 ∷ r
put_opt (some xs) r = 1 ∷ put_text xs r

abbrev opt_by : ℕ → Bytes → Option Bytes
opt_by zero r = none
opt_by (suc n) r = some (text r)

abbrev behind_by : ℕ → Bytes → Bytes
behind_by zero r = r
behind_by (suc n) r = behind_text r

pub opt : Bytes → Option Bytes
opt r = opt_by (num r) (rest r)

pub behind_opt : Bytes → Bytes
behind_opt r = behind_by (num r) (rest r)

opt-put_opt : (o : Option Bytes) (r : Bytes) → opt (put_opt o r) ≡ o
unfolding opt put_opt
opt-put_opt none r = refl
opt-put_opt (some xs) r = ap some (text-put_text xs r)

behind_opt-put_opt : (o : Option Bytes) (r : Bytes) → behind_opt (put_opt o r) ≡ r
unfolding behind_opt put_opt
behind_opt-put_opt none r = refl
behind_opt-put_opt (some xs) r = behind_text-put_text xs r

abbrev of_bool : Bool → ℕ
of_bool false = 0
of_bool true = 1

abbrev to_bool : ℕ → Bool
to_bool zero = false
to_bool (suc n) = true

to_bool-of_bool : (b : Bool) → to_bool (of_bool b) ≡ b
to_bool-of_bool true = refl
to_bool-of_bool false = refl

abbrev record_bytes : ArtifactRecord ℕ → Bytes
record_bytes r =
    r.schema_version
    ∷ r.size
    ∷ r.created_at
    ∷ r.updated_at
    ∷ r.last_accessed_at
    ∷ r.kind
    ∷ of_bool r.internal
    ∷ put_text r.id (
        put_text r.content_type
          (put_text r.path (put_opt r.blob_id (put_opt r.content_hash (put_opt r.etag [])))))

abbrev nth_num : ℕ → Bytes → ℕ
nth_num zero r = num r
nth_num (suc i) r = nth_num i (rest r)

abbrev skip : ℕ → Bytes → Bytes
skip zero r = r
skip (suc i) r = skip i (rest r)

abbrev bytes_record : Bytes → ArtifactRecord ℕ
bytes_record b =
    let t₁ = skip 7 b in
    let t₂ = behind_text t₁ in
    let t₃ = behind_text t₂ in
    let o₁ = behind_text t₃ in
    let o₂ = behind_opt o₁ in
    let o₃ = behind_opt o₂ in
    record {
      schema_version = nth_num 0 b;
      id = text t₁;
      size = nth_num 1 b;
      content_type = text t₂;
      created_at = nth_num 2 b;
      updated_at = nth_num 3 b;
      last_accessed_at = nth_num 4 b;
      path = text t₃;
      kind = nth_num 5 b;
      internal = to_bool (nth_num 6 b);
      blob_id = opt o₁;
      content_hash = opt o₂;
      etag = opt o₃;
    }

unfoldable pub records : Codec (ArtifactRecord ℕ) Bytes
records = record { to_vec = record_bytes; from_slice = λ b. ok (bytes_record b) }

pub records-CodecLaws : CodecLaws records
unfolding records
records-CodecLaws = record { round_trip = λ r. ap ok (round r) }
  where
    round : (r : ArtifactRecord ℕ) → bytes_record (record_bytes r) ≡ r
    round r = rw (
      text-put_text, behind_text-put_text, text-put_text, behind_text-put_text, text-put_text,
      behind_text-put_text, opt-put_opt, behind_opt-put_opt, opt-put_opt, behind_opt-put_opt,
      opt-put_opt, to_bool-of_bool,
    )

abbrev kind_bytes : TreeEntryKind ℕ → Bytes
kind_bytes (TreeEntryKind.dir n b) = 0 ∷ n ∷ b ∷ []
kind_bytes (TreeEntryKind.file size ct k blob hash created) =
    1 ∷ size ∷ k ∷ created ∷ put_text ct (put_opt blob (put_opt hash []))

abbrev file_of : Bytes → TreeEntryKind ℕ
file_of b =
    let t = skip 3 b in
    let o = behind_text t in
    TreeEntryKind.file (nth_num 0 b) (text t) (nth_num 1 b) (opt o) (opt (behind_opt o))
      (nth_num 2 b)

abbrev kind_by : ℕ → Bytes → TreeEntryKind ℕ
kind_by zero b = TreeEntryKind.dir (nth_num 0 b) (nth_num 1 b)
kind_by (suc n) b = file_of b

kind-kind_bytes : (k : TreeEntryKind ℕ) → kind_by (num (kind_bytes k)) (rest (kind_bytes k)) ≡ k
kind-kind_bytes (TreeEntryKind.dir n b) = refl
kind-kind_bytes (TreeEntryKind.file size ct k blob hash created) =
    rw (text-put_text, behind_text-put_text, opt-put_opt, behind_opt-put_opt, opt-put_opt)

unfoldable pub trees : Codec (TreeEntry ℕ) Bytes
trees = record {
  to_vec = λ te. te.last_modified_at ∷ te.last_accessed_at ∷ kind_bytes te.kind;
  from_slice = λ b. ok (record {
    kind = kind_by (nth_num 2 b) (skip 3 b);
    last_modified_at = nth_num 0 b;
    last_accessed_at = nth_num 1 b;
  });
}

pub trees-CodecLaws : CodecLaws trees
unfolding trees
trees-CodecLaws = record {
  round_trip = λ te.
      ap
        (λ k. ok (record {
          kind = k;
          last_modified_at = te.last_modified_at;
          last_accessed_at = te.last_accessed_at;
        }))
        (kind-kind_bytes te.kind);
}
