-- ===== src/Content/Adding.antt =====
-- A content is added to its pending pack in repo/content/content_manager.go, and the pack written if it is full.
use mathlib.Core.Path.{subst}
use kopia.Prelude.{
  ℕ, ◌≡◌, refl, sym, ap, ◌∙◌, inl, inr, Bool, false, List, [], Option, none, some, arith,
  Bool-cases, ◌+◌, leb, length,
}
use kopia.Content.Action.{Outcome, returns, Outcome-bind, Outcome-imp}
use kopia.Content.Committing.{raised}
use kopia.Content.Flushing.{Keeps-refl, Keeps-trans, touch-Keeps, retry_failed_packs-skip}
use kopia.Content.Looking.{world-Keeps}
use kopia.Content.Maps.{Newer}
use kopia.Content.Operations.{add_encoded, store_pack, add_item, new_info, unix}
use kopia.Content.Packs.{get_or_create_pending_pack_info, pack_or_new, start_pack}
use kopia.Content.Putting.{
  Newest, Newest-seen, Put, with_item-Put, set_pending-Keeps, content_write_time-later,
}
use kopia.Content.Seen.{Lawful, Valid, Keeps, PackOf, seen}
use kopia.Content.State.{
  PackPrefix, PendingPack, MutableParameters, Environment, Manager, set_pending, in_pack,
  pack_prefix_for_content_id, content_write_time,
}
use kopia.Content.Pending.{at_own}
use kopia.Content.Storing.{write_pack-Gone}
use kopia.Index.Builder.{lookup_info}
use kopia.Index.ContentId.{ContentId}
use kopia.Index.Info.{Info}

-- the time of an info
abbrev pub seconds_of : Option Info → Option ℕ
seconds_of none = none
seconds_of (some i) = some i.timestamp_seconds

module _ {W E : Type 0} (env : Environment W E) where
  -- an info of the content is put that is newer than the one that was seen, and deleted, or not
  abbrev pub PutAs : Manager W → ContentId → Bool → Unit {0} → Manager W → Type 0
  PutAs s id is_deleted u t =
      (i : Info) × ((i.content_id ≡ id) × (i.deleted ≡ is_deleted) × Newer i (seen env s id))
      × Put env s i t

module _ {W E : Type 0} (env : Environment W E) (Faulty : E → Type 0)
    (law : Lawful env Faulty) where
  -- the pending pack of a prefix
  abbrev pub HasPack : Manager W → PackPrefix → PendingPack → Manager W → Type 0
  HasPack s k pp t = Keeps env s t × (t.pending_packs k ≡ some pp)

  pub start_pack-HasPack :
      (s t : Manager W) (k : PackPrefix) (drawn : List ℕ × List ℕ)
      → t.pending_packs k ≡ none
      → Keeps env s t
      → Outcome Faulty (HasPack s k) (start_pack k drawn t)
  unfolding lookup_info
  start_pack-HasPack s t k drawn e keeps =
      let empty : PendingPack = record {
        prefix = k;
        pack_blob_id = drawn.0;
        current_pack_items = [];
        current_pack_data = drawn.1;
        finalized = false;
      } in
      let put =
        set_pending-Keeps env t k empty keeps.valid (refl, tt, λ id i h. absurd (ground (arith, h)))
          (λ id. sym (ap (λ o. in_pack o id) e)) in
      returns empty _ (Keeps-trans env s t _ keeps put, at_own t.pending_packs k (some empty))

  pack_or_new-HasPack :
      (s : Manager W) (k : PackPrefix) (o : Option PendingPack)
      → Valid env s
      → s.pending_packs k ≡ o
      → Outcome Faulty (HasPack s k) (pack_or_new env k o s)
  pack_or_new-HasPack s k (some pp) v e = returns pp s (Keeps-refl env s v, e)
  pack_or_new-HasPack s k none v e =
      let t = record s { world = (env.new_pack k s.world).1 } in
      Outcome-bind Faulty
        (raised env Faulty law (env.new_pack k s.world).0 t (law.new_pack_fails k s.world))
        (λ drawn t1 same. rw (same.0) (
          start_pack-HasPack s t k drawn e
            (world-Keeps env s (env.new_pack k s.world).1 v (law.new_pack_keeps k s.world))))

  -- There is a pack for a content, and nothing is seen in another way.
  pub get_or_create-HasPack :
      (s : Manager W) (k : PackPrefix)
      → Valid env s
      → Outcome Faulty (HasPack s k) (get_or_create_pending_pack_info env k s)
  unfolding get_or_create_pending_pack_info
  get_or_create-HasPack s k v = pack_or_new-HasPack s k (s.pending_packs k) v refl

  pub Put-after : (s t u : Manager W) (i : Info) → Put env s i t → Keeps env t u → Put env s i u
  Put-after s t u i p k = record {
    valid = k.valid;
    there = k.same i.content_id ∙ p.there;
    others = λ j h. k.same j ∙ p.others j h;
  }

  pub Put-before : (s t u : Manager W) (i : Info) → Keeps env s t → Put env t i u → Put env s i u
  Put-before s t u i k p = record {
    valid = p.valid;
    there = p.there;
    others = λ j h. p.others j h ∙ k.same j;
  }

  pub PutAs-before :
      (s t : Manager W) (id : ContentId) (is_deleted : Bool) (u : Unit {0}) (v : Manager W)
      → Keeps env s t
      → PutAs env t id is_deleted u v
      → PutAs env s id is_deleted u v
  PutAs-before s t id is_deleted u v k (i, (own, del, newer), p) =
      (i, (own, del, subst (λ o. Newer i o) (k.same id) newer), Put-before s t v i k p)

  store_pack-Put :
      (mp : MutableParameters) (s : Manager W) (pp : PendingPack) (i : Info) (packed : List ℕ)
      → Valid env s
      → s.pending_packs (pack_prefix_for_content_id i.content_id) ≡ some pp
      → Newest env s i.content_id i
      → Outcome Faulty (λ u t. Put env s i t) (store_pack env mp (add_item pp i packed) s)
  store_pack-Put mp s pp i packed v has newest =
      let k = pack_prefix_for_content_id i.content_id in
      let own : pp.prefix ≡ k = (subst (λ o. PackOf env k o) has (v.packs k)).0 in
      let full = add_item pp i packed in
      let put : Put env s i (set_pending s pp.prefix (some full)) =
        subst (λ j. Put env s i (set_pending s j (some full))) (sym own)
          (with_item-Put env s pp i full.current_pack_data v has newest) in
      elim (Bool-cases (leb mp.max_pack_size (length full.current_pack_data))) [
        | inl e ↦ rw e (
            Outcome-imp Faulty
              (λ u t g. Put-after s (set_pending s pp.prefix (some full)) t i put g.0)
              (write_pack-Gone env Faulty law s full put.valid))
        | inr e ↦ rw e (returns tt _ put)
      ]

  pub write_time-Newer :
      (o : Option Info) (i : Info) (t : ℕ)
      → i.timestamp_seconds ≡ content_write_time t (seconds_of o)
      → Newer i o
  write_time-Newer none i t e = tt
  write_time-Newer (some j) i t e = omega (arith, e, content_write_time-later t j.timestamp_seconds)

  -- The content is added to its pack, and a full pack is written.
  pub add_encoded-PutAs :
      (mp : MutableParameters) (id : ContentId) (size : ℕ) (is_deleted : Bool) (previous : Option ℕ)
      (encoded : List ℕ × ℕ) (s : Manager W)
      → Valid env s
      → seconds_of (seen env s id) ≡ previous
      → Outcome Faulty
          (PutAs env s id is_deleted)
          (add_encoded env mp id size is_deleted previous encoded s)
  add_encoded-PutAs mp id size is_deleted previous (packed, comp) s v e =
      let counted = touch-Keeps env s (s.revision + 1) s.flushing s.flush_pack_indexes_after v in
      rw
        (retry_failed_packs-skip env Faulty law (record s { revision = s.revision + 1 })
          counted.valid)
        (Outcome-bind Faulty
          (get_or_create-HasPack (record s { revision = s.revision + 1 })
            (pack_prefix_for_content_id id) counted.valid)
          (λ pp t has.
            let kept = Keeps-trans env s _ t counted has.0 in
            let i =
              new_info mp id size is_deleted previous comp (unix (env.time_now t.world)) pp
                packed in
            let newer : Newer i (seen env t id) =
              write_time-Newer (seen env t id) i (unix (env.time_now t.world)) (
                ap (content_write_time (unix (env.time_now t.world)))
                  (sym e ∙ ap seconds_of (sym (kept.same id)))) in
            Outcome-imp Faulty
              (λ u t1 p. (
                i,
                (refl, refl, subst (λ o. Newer i o) (kept.same id) newer),
                Put-before s t t1 i kept p,
              ))
              (store_pack-Put mp t pp i packed kept.valid has.1
                (Newest-seen env t id i kept.valid newer))))
