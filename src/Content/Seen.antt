-- ===== src/Content/Seen.antt =====
-- What repo/content/content_manager.go relies on, and what its state shows of each content.
use kopia.Prelude.{ℕ, ◌≡◌, List, [], Option, none, some, Result, ok, err, if◌then◌else◌}
use kopia.Content.Action.{value_of}
use kopia.Content.Maps.{NoDup, Newer}
use kopia.Content.State.{
  PackPrefix, PendingPack, MutableParameters, Environment, Manager, in_pack, or_else,
  pack_prefix_for_content_id,
}
use kopia.Index.Builder.{lookup_info, content_info_greater_than}
use kopia.Index.ContentId.{ContentId, IdError}
use kopia.Index.Info.{Info}

-- an expected error, if there is one
abbrev pub MayFail : {E : Type 0} → (E → Type 0) → Option E → Type 0
MayFail Faulty none = Unit
MayFail Faulty (some e) = Faulty e

abbrev pub MayRaise : {A E : Type 0} → (E → Type 0) → Result E A → Type 0
MayRaise Faulty (ok a) = Unit
MayRaise Faulty (err e) = Faulty e

-- the committed info, after an index was committed
abbrev pub merged : Option Info → Option Info → Option Info
merged none c = c
merged (some i) c = if content_info_greater_than (some i) c then some i else c

module _ {W E : Type 0} (env : Environment W E) where
  abbrev pub committed : W → ContentId → Option Info
  committed w id = value_of (env.get_committed w id)

  -- What the surroundings do: their errors are of one kind, no other client commits, and an index that is
  -- committed is found with those before it.
  pub record Lawful (Faulty : E → Type 0) : Type 0 where
    pub parameters_fail : (w : W) → MayRaise Faulty (env.mutable_parameters w)
    pub encode_fails :
        (mp : MutableParameters) (b : List ℕ) (id : ContentId) (c : ℕ)
        → MayRaise Faulty (env.encode mp b id c)
    pub id_fails : (e : IdError) → Faulty (env.invalid_id e)
    pub new_pack_fails : (k : PackPrefix) (w : W) → MayRaise Faulty (env.new_pack k w).0
    pub new_pack_keeps :
        (k : PackPrefix) (w : W) (id : ContentId)
        → committed (env.new_pack k w).1 id ≡ committed w id
    pub finish_fails : (is : List Info) (b : List ℕ) → MayFail Faulty (env.finish_pack is b).0
    pub put_fails : (n b : List ℕ) (w : W) → MayFail Faulty (env.put_blob n b w).0
    pub put_keeps :
        (n b : List ℕ) (w : W) (id : ContentId)
        → committed (env.put_blob n b w).1 id ≡ committed w id
    pub refresh_fails : (w : W) → MayFail Faulty (env.refresh w).0
    pub refresh_keeps : (w : W) (id : ContentId) → committed (env.refresh w).1 id ≡ committed w id
    pub commit_fails : (is : List Info) (w : W) → MayFail Faulty (env.commit_index is w).0
    pub commit_merges :
        (is : List Info) (w : W) (id : ContentId)
        → (env.commit_index is w).0 ≡ none
        → committed (env.commit_index is w).1 id ≡ merged (lookup_info is id) (committed w id)

  -- the info of a content that is pending
  abbrev pub pending_info : Manager W → ContentId → Option Info
  pending_info s id = in_pack (s.pending_packs (pack_prefix_for_content_id id)) id

  -- The info of a content: pending, in the index that is built, or committed.
  unfoldable pub seen : Manager W → ContentId → Option Info
  seen s id =
      or_else (pending_info s id)
        (or_else (lookup_info s.pack_index_builder id) (committed s.world id))

  -- a pending pack has its prefix, and contents of this prefix
  abbrev pub PackOf : PackPrefix → Option PendingPack → Type 0
  PackOf k none = Unit
  PackOf k (some pp) =
      (pp.prefix ≡ k)
      × NoDup pp.current_pack_items
      × ((id : ContentId) (i : Info)
          → lookup_info pp.current_pack_items id ≡ some i
          → pack_prefix_for_content_id id ≡ k)

  -- The state between operations, when no pack has failed: the newer info of a content is the one seen.
  pub record Valid (s : Manager W) : Type 0 where
    pub writing : s.writing_packs ≡ []
    pub failed : s.failed_packs ≡ []
    pub packs : (k : PackPrefix) → PackOf k (s.pending_packs k)
    pub newer_built :
        (k : PackPrefix) (id : ContentId) (i : Info)
        → in_pack (s.pending_packs k) id ≡ some i
        → Newer i (lookup_info s.pack_index_builder id)
    pub newer_pending :
        (k : PackPrefix) (id : ContentId) (i : Info)
        → in_pack (s.pending_packs k) id ≡ some i
        → Newer i (committed s.world id)
    pub newer_committed :
        (id : ContentId) (i : Info)
        → lookup_info s.pack_index_builder id ≡ some i
        → Newer i (committed s.world id)

  -- a later state in which every content is seen as before
  pub record Keeps (s t : Manager W) : Type 0 where
    pub valid : Valid t
    pub same : (id : ContentId) → seen t id ≡ seen s id
    pub count : t.disable_index_flush_count ≡ s.disable_index_flush_count
