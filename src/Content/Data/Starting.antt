-- ===== src/Content/Data/Starting.antt =====
-- A new pack of repo/content/content_manager.go: the bytes of all contents stay.
use kopia.Prelude.{
  ℕ, ◌≡◌, refl, sym, ap, ◌∙◌, false, List, [], Option, none, some, ok, arith, append-nil,
}
use kopia.Content.Action.{Outcome, Outcome-bind, Outcome-when, returns}
use kopia.Content.Adding.{HasPack, start_pack-HasPack}
use kopia.Content.Committing.{raised}
use kopia.Content.Data.{Storage, PendingSound, Sound, Small, PendingSmall, source, Preserves}
use kopia.Content.Data.Preserving.{source-world, PendingSound-world, Preserves-refl}
use kopia.Content.Flushing.{Keeps-refl}
use kopia.Content.Looking.{world-Keeps}
use kopia.Content.Packs.{pack_or_new}
use kopia.Content.Seen.{Lawful, Valid, Keeps}
use kopia.Content.State.{
  PackPrefix, PendingPack, Environment, Manager, set_pending, pack_prefix_for_content_id,
}
use kopia.Index.Builder.{lookup_info}
use kopia.Index.ContentId.{ContentId}
use kopia.Content.Pending.{each, each_other}

module _ {W E : Type 0} (env : Environment W E) (blob : W → List ℕ → Option (List ℕ)) where
  module _ (Faulty : E → Type 0) (law : Lawful env Faulty) (store : Storage env blob) where
    empty_source :
        (o : Option PendingPack) (q : PendingPack) (w v : W) (id : ContentId) (n d : List ℕ)
        → o ≡ none
        → q.current_pack_items ≡ []
        → ((m : List ℕ) → blob v m ≡ blob w m)
        → source env blob o w id n ≡ some d
        → source env blob (some q) v id n ≡ some d
    unfolding lookup_info
    empty_source none q w v id n d h e b g = rw e (b n ∙ g)
    empty_source (some x) q w v id n d h e b g = absurd (ground (arith, h))

    abbrev new_pack_of : PackPrefix → List ℕ × List ℕ → PendingPack
    new_pack_of k drawn = record {
      prefix = k;
      pack_blob_id = drawn.0;
      current_pack_items = [];
      current_pack_data = drawn.1;
      finalized = false;
    }

    abbrev after_start : Manager W → PackPrefix → List ℕ × List ℕ → Manager W
    after_start s k drawn =
        set_pending (record s { world = (env.new_pack k s.world).1 }) k (some (new_pack_of k drawn))

    started :
        (s : Manager W) (k : PackPrefix) (drawn : List ℕ × List ℕ)
        → Sound env blob s
        → Small s
        → s.pending_packs k ≡ none
        → (env.new_pack k s.world).0 ≡ ok drawn
        → Keeps env s (after_start s k drawn)
        → Preserves env blob s (after_start s k drawn)
    started s k drawn p m e r keeps =
        let w = (env.new_pack k s.world).1 in
        let same = store.new_pack_same k s.world in
        let size = store.preamble k s.world drawn r in
        record {
          keeps = keeps;
          sound = λ j.
              each (λ l o. PendingSound env blob l w o) k j s.pending_packs
                (some (new_pack_of k drawn))
                (record {
                  not_finalized = refl;
                  fresh = same drawn.0 ∙ store.new_pack_fresh k s.world drawn r;
                  named = store.new_pack_letter k s.world drawn r;
                  filled = size.0;
                })
                (PendingSound-world env blob j s.world w (s.pending_packs j) same (p j));
          small = λ j.
              each (λ l o. PendingSmall o) k j s.pending_packs (some (new_pack_of k drawn)) size.1
                (m j);
          moves = λ id i d g q. (
            [],
            each_other
                  (λ a b.
                    source env blob a s.world id i.pack_blob_id ≡ some d
                    → source env blob b w id i.pack_blob_id ≡ some d)
                  k (pack_prefix_for_content_id id) s.pending_packs (some (new_pack_of k drawn))
                  (λ h.
                    empty_source (s.pending_packs k) (new_pack_of k drawn) s.world w id
                      i.pack_blob_id d e refl same h)
                  (λ o h. source-world env blob o s.world w id i.pack_blob_id same ∙ h) q
                ∙ ap some (sym (append-nil d)),
          );
        }

    -- There is a pack for a content, and all bytes stay.
    pub get_or_create-Preserves :
        (s : Manager W) (k : PackPrefix) (o : Option PendingPack)
        → Valid env s
        → Sound env blob s
        → Small s
        → s.pending_packs k ≡ o
        → Outcome Faulty
            (λ pp t. HasPack env Faulty law s k pp t × Preserves env blob s t)
            (pack_or_new env k o s)
    get_or_create-Preserves s k (some pp) v p m e =
        returns pp s ((Keeps-refl env s v, e), Preserves-refl env blob s v p m)
    get_or_create-Preserves s k none v p m e =
        let w = (env.new_pack k s.world).1 in
        let keeps = world-Keeps env s w v (law.new_pack_keeps k s.world) in
        Outcome-bind Faulty
          (raised env Faulty law (env.new_pack k s.world).0 (record s { world = w })
            (law.new_pack_fails k s.world))
          (λ drawn t1 same. rw (same.0) (
            Outcome-when Faulty
              (start_pack-HasPack env Faulty law s (record s { world = w }) k drawn e keeps)
              (λ a d h. started s k drawn p m e same.1 h.0)))
