-- ===== src/Content/Data.antt =====
-- What storage keeps for repo/content/content_manager.go, and when the bytes of a content are held.
pub mod Preserving
pub mod Packs
pub mod Writing
pub mod Flushing
pub mod Adding
pub mod Starting
pub mod Live
pub mod Storing
pub mod Reading
pub mod RoundTrip
pub mod Rewriting
use mathlib.Core.Path.{subst}
use kopia.Prelude.{
  ℕ, ◌+◌, ◌<◌, ◌≤◌, ◌%◌, ◌^◌, ◌≡◌, refl, sym, ap, ◌∙◌, Bool, true, false, ◌&&◌, List, [], ◌∷◌, ◌++◌,
  Option, none, some, Result, ok, err, if◌then◌else◌, length, take, drop, bytes_equal, append_assoc,
  append-nil, arith, take-append_le, drop-append_le, length-drop, length-append,
}
use kopia.Content.Flushing.{Keeps-refl, Keeps-trans}
use kopia.Content.Operations.{is_found}
use kopia.Content.Seen.{Valid, Keeps, seen}
use kopia.Content.State.{
  PackPrefix, PendingPack, MutableParameters, Environment, Manager, in_pack,
  pack_prefix_for_content_id,
}
use kopia.Index.Builder.{lookup_info}
use kopia.Index.ContentId.{ContentId}
use kopia.Index.Info.{Info}

-- the bytes of a content in its pack
abbrev pub region : Info → List ℕ → List ℕ
region i d = take i.packed_length (drop i.pack_offset d)

-- the packs that are pending have less than 2 GB
abbrev pub PendingSmall : Option PendingPack → Type 0
PendingSmall none = Unit
PendingSmall (some pp) = length pp.current_pack_data < 2 ^ 31

abbrev pub Small : {W : Type 0} → Manager W → Type 0
Small s = (k : PackPrefix) → PendingSmall (s.pending_packs k)

-- the first letter of a pack's name
abbrev pub letter : PackPrefix → List ℕ
letter PackPrefix.regular = 112 ∷ []
letter PackPrefix.special = 113 ∷ []

module _ {W E : Type 0} (env : Environment W E) (blob : W → List ℕ → Option (List ℕ)) where
  -- What storage and the formats do, for the pack blobs that are in storage: a blob that is put is read back,
  -- the others stay; a new pack has a name that no pack blob has and a preamble; a content is decrypted from
  -- what it was encrypted to; the limit of a pack's size is at most 2 GB.
  pub record Storage : Type 0 where
    pub puts :
        (n d : List ℕ) (w : W)
        → (env.put_blob n d w).0 ≡ none
        → blob (env.put_blob n d w).1 n ≡ some d
    pub put_others :
        (n d : List ℕ) (w : W) (m : List ℕ)
        → bytes_equal n m ≡ false
        → blob (env.put_blob n d w).1 m ≡ blob w m
    pub new_pack_same :
        (k : PackPrefix) (w : W) (m : List ℕ) → blob (env.new_pack k w).1 m ≡ blob w m
    pub new_pack_fresh :
        (k : PackPrefix) (w : W) (drawn : List ℕ × List ℕ)
        → (env.new_pack k w).0 ≡ ok drawn
        → blob w drawn.0 ≡ none
    pub new_pack_letter :
        (k : PackPrefix) (w : W) (drawn : List ℕ × List ℕ)
        → (env.new_pack k w).0 ≡ ok drawn
        → take 1 drawn.0 ≡ letter k
    pub preamble :
        (k : PackPrefix) (w : W) (drawn : List ℕ × List ℕ)
        → (env.new_pack k w).0 ≡ ok drawn
        → (0 < length drawn.1) × (length drawn.1 < 2 ^ 31)
    pub refresh_same : (w : W) (m : List ℕ) → blob (env.refresh w).1 m ≡ blob w m
    pub commit_same :
        (is : List Info) (w : W) (m : List ℕ) → blob (env.commit_index is w).1 m ≡ blob w m
    pub finish_appends :
        (is : List Info) (b : List ℕ)
        → (env.finish_pack is b).0 ≡ none
        → (x : List ℕ) × ((env.finish_pack is b).1 ≡ b ++ x)
    pub max_size :
        (w : W) (mp : MutableParameters)
        → env.mutable_parameters w ≡ ok mp
        → mp.max_pack_size ≤ 2 ^ 31
    pub decodes :
        (mp : MutableParameters) (b : List ℕ) (id : ContentId) (c : ℕ) (p : List ℕ × ℕ) (i : Info)
        → env.encode mp b id c ≡ ok p
        → i.content_id ≡ id
        → i.compression_header_id ≡ p.1
        → i.format_version ≡ mp.version % 2 ^ 8
        → i.original_length ≡ length b % 2 ^ 32
        → env.decode p.0 i ≡ ok b

  -- a payload that is decoded to the bytes, or an error of the surroundings
  abbrev pub Decodes : (E → Type 0) → Info → List ℕ → Result E (List ℕ) → Type 0
  Decodes Faulty i b (ok payload) = env.decode payload i ≡ ok b
  Decodes Faulty i b (err e) = Faulty e

  -- What a read of a range that lies in a pack blob gives: an error of the surroundings, or a payload of the
  -- content: the bytes of the range, or, from the content cache, those of an earlier pack, which are decoded to
  -- the same bytes. A range outside the blob has no law.
  pub record Readable (Faulty : E → Type 0) : Type 0 where
    pub reads :
        (i : Info) (w : W) (d b : List ℕ)
        → blob w i.pack_blob_id ≡ some d
        → i.pack_offset + i.packed_length ≤ length d
        → env.decode (region i d) i ≡ ok b
        → Decodes Faulty i b (env.read_content i w)

  -- where the bytes of a content are: in its pending pack, or in the blob with the name
  abbrev pub source : Option PendingPack → W → ContentId → List ℕ → Option (List ℕ)
  source none w id n = blob w n
  source (some pp) w id n =
      if is_found (lookup_info pp.current_pack_items id) && bytes_equal pp.pack_blob_id n
      then some pp.current_pack_data
      else blob w n

  abbrev pub source_of : Manager W → ContentId → List ℕ → Option (List ℕ)
  source_of s id n = source (s.pending_packs (pack_prefix_for_content_id id)) s.world id n

  -- a pack that is pending is not in storage
  pub record PackSound (k : PackPrefix) (w : W) (pp : PendingPack) : Type 0 where
    pub not_finalized : pp.finalized ≡ false
    pub fresh : blob w pp.pack_blob_id ≡ none
    pub named : take 1 pp.pack_blob_id ≡ letter k
    pub filled : 0 < length pp.current_pack_data

  abbrev pub PendingSound : PackPrefix → W → Option PendingPack → Type 0
  PendingSound k w none = Unit
  PendingSound k w (some pp) = PackSound k w pp

  abbrev pub Sound : Manager W → Type 0
  Sound s = (k : PackPrefix) → PendingSound k s.world (s.pending_packs k)

  -- what is in a pack, or a blob, is at its start later
  abbrev pub Moves : Manager W → Manager W → ContentId → Type 0
  Moves s t id =
      (i : Info) (d : List ℕ)
      → seen env s id ≡ some i
      → source_of s id i.pack_blob_id ≡ some d
      → (x : List ℕ) × (source_of t id i.pack_blob_id ≡ some (d ++ x))

  -- a later state in which every content is seen as before, with the same bytes
  pub record Preserves (s t : Manager W) : Type 0 where
    pub keeps : Keeps env s t
    pub sound : Sound t
    pub small : Small t
    pub moves : (id : ContentId) → Moves s t id

  -- The bytes of a content are held.
  pub record Holds (s : Manager W) (id : ContentId) (bytes : List ℕ) : Type 0 where
    pub info : Info
    pub data_bytes : List ℕ
    pub there : seen env s id ≡ some info
    pub from : source_of s id info.pack_blob_id ≡ some data_bytes
    pub inside : info.pack_offset + info.packed_length ≤ length data_bytes
    pub decoded : env.decode (region info data_bytes) info ≡ ok bytes
