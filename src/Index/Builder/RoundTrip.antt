-- ===== src/Index/Builder/RoundTrip.antt =====
-- Build of repo/content/index/index_builder.go, then Open and GetInfo of index_v1.go: what a builder
-- holds is found in its file.
use kopia.Prelude.{
  ℕ, ◌≡◌, ◌∙◌, refl, false, List, [], Option, none, some, length, All, Result, ok, ◌>>=◌,
  bytes_equal,
}
use kopia.Index.ContentId.{ContentId, content_id_to_bytes}
use kopia.Index.Info.{Info}
use kopia.Index.Builder.{sorted_contents, build}
use kopia.Index.Builder.Members.{Place, sorted_contents-Place}
use kopia.Index.Builder.Sorting.{HasKey, IsDistinct}
use kopia.Index.Builder.Buckets.{sorted_contents-IsSorted, sorted_contents-All}
use kopia.Index.V1.{IndexError}
use kopia.Index.V1.File.{Buildable, build_v1-built, built-file, open_v1-file}
use kopia.Index.V1.Keys.{key_of, All-get_elem?}
use kopia.Index.V1.Positions.{index}
use kopia.Index.V1.Reader.{open_v1, get_info}
use kopia.Index.V1.RoundTrip.{as_read, get_info-as_read, get_info-none}

-- a file is built, opened, and asked for a content
abbrev pub build_and_get : List Info → ℕ → List ℕ → ContentId → Result IndexError (Option Info)
build_and_get b overhead suffix content_id = do
  bytes ← build b suffix
  ix ← open_v1 bytes overhead
  get_info ix content_id

module _ (k : ℕ) (b : List Info) (buildable : Buildable k (sorted_contents b)) (overhead : ℕ)
    (suffix : List ℕ) where
  build_and_get-index :
      (content_id : ContentId)
      → build_and_get b overhead suffix content_id
        ≡ get_info (index k (sorted_contents b) buildable overhead suffix) content_id
  unfolding build
  build_and_get-index content_id =
      let vs = sorted_contents b in
      rw
        (
          build_v1-built k vs buildable,
          built-file k vs buildable suffix,
          open_v1-file k vs buildable overhead suffix,
        )
        refl

  -- A builder whose contents have distinct keys of k bytes, with 1 < k < 255, and fields that version 1 can
  -- hold (Fits), in a file below 4 GB (Buildable): whatever suffix is appended, each content is found in
  -- the file that is built, as it was written, but for the original length, which is computed from
  -- the packed one and the overhead (as_read).
  pub build_and_get-as_read :
      (it : Info)
      → All HasKey b
      → IsDistinct b
      → Place b it
      → build_and_get b overhead suffix it.content_id ≡ ok (some (as_read overhead it))
  build_and_get-as_read it keys distinct place =
      let key = All-get_elem? HasKey b place.0 it keys place.1 in
      let (q, e) = sorted_contents-Place it b key place in
      build_and_get-index it.content_id
      ∙ get_info-as_read k (sorted_contents b) buildable overhead suffix q it
          (sorted_contents-IsSorted b keys distinct) e

  -- For such a builder and any suffix, a content ID whose key has k bytes and is no content's is not found
  -- in the file, without an error.
  pub build_and_get-none :
      (content_id : ContentId)
      → All HasKey b
      → IsDistinct b
      → length (content_id_to_bytes [] content_id) ≡ k
      → All (λ it. bytes_equal (key_of it) (content_id_to_bytes [] content_id) ≡ false) b
      → build_and_get b overhead suffix content_id ≡ ok none
  build_and_get-none content_id keys distinct sized other =
      build_and_get-index content_id
      ∙ get_info-none k (sorted_contents b) buildable overhead suffix content_id
          (sorted_contents-IsSorted b keys distinct) sized (sorted_contents-All _ b other)
