-- ===== src/Content/Finishing.antt =====
-- A pack of repo/content/content_manager.go that is written is moved to the index, and every content is
-- seen as before.
use kopia.Prelude.{
  same_some, ◌≡◌, refl, sym, ◌∙◌, inl, inr, List, [], Option, none, some, Option-cases,
}
use kopia.Content.Maps.{NoDup, Newer, lookup_info-add_all-none, lookup_info-add_all-some}
use kopia.Content.Pending.{at_own}
use kopia.Content.Seen.{Valid, Keeps, PackOf, committed, seen}
use kopia.Content.State.{
  PackPrefix, PendingPack, Environment, Manager, update, set_pending, in_pack, or_else,
  pack_prefix_for_content_id,
}
use kopia.Index.Builder.{lookup_info, add_all}
use kopia.Index.ContentId.{ContentId}
use kopia.Index.Info.{Info}

pub two_prefixes : PackPrefix.regular ≡ PackPrefix.special → ⊥
two_prefixes e = cc

pub no_pack : (id : ContentId) (i : Info) → in_pack none id ≡ some i → ⊥
no_pack id i e = cc

or_else_assoc :
    (a b c : Option Info) → or_else none (or_else (or_else a b) c) ≡ or_else a (or_else b c)
or_else_assoc none b c = refl
or_else_assoc (some i) b c = refl

module _ {W E : Type 0} (env : Environment W E) where
  -- A pack in a valid state, and the state in which its contents are in the index.
  module _ (s : Manager W) (pp : PendingPack) (k : PackPrefix) (own : pp.prefix ≡ k)
      (v : Valid env (set_pending s k (some pp))) where
    pub mine : PackOf env k (some pp)
    mine = rw (at_own s.pending_packs k (some pp)) at (v.packs k)

    item-Newer :
        (id : ContentId) (i : Info)
        → lookup_info pp.current_pack_items id ≡ some i
        → Newer i (lookup_info s.pack_index_builder id) × Newer i (committed env s.world id)
    item-Newer id i e =
        let here : in_pack (update s.pending_packs k (some pp) k) id ≡ some i =
          rw (at_own s.pending_packs k (some pp)) e in
        (v.newer_built k id i here, v.newer_pending k id i here)

    module _ (idx : List Info)
        (found : (id : ContentId) → lookup_info idx id ≡ lookup_info pp.current_pack_items id)
        (distinct : NoDup idx) (w : W)
        (keeps : (id : ContentId) → committed env w id ≡ committed env s.world id) where
      built :
          (id : ContentId)
          → lookup_info (add_all s.pack_index_builder idx) id
            ≡ or_else (lookup_info pp.current_pack_items id) (lookup_info s.pack_index_builder id)
      built id = elim (Option-cases (lookup_info pp.current_pack_items id)) [
        | inl e ↦ rw e (lookup_info-add_all-none s.pack_index_builder idx id (found id ∙ e))
        | inr (i, e) ↦ rw e (
            lookup_info-add_all-some s.pack_index_builder idx id i distinct (found id ∙ e)
              (item-Newer id i e).0)
      ]

      -- another pack's content is not in the pack
      elsewhere :
          (id : ContentId) (j : PackPrefix)
          → (k ≡ j → ⊥)
          → pack_prefix_for_content_id id ≡ j
          → lookup_info pp.current_pack_items id ≡ none
      elsewhere id j ne e = elim (Option-cases (lookup_info pp.current_pack_items id)) [
        | inl h ↦ h
        | inr (i, h) ↦ absurd (ne (sym (mine.2 id i h) ∙ e))
      ]

      abbrev pub after : Manager W
      after = record (set_pending s k none) {
        world = w;
        writing_packs = [];
        failed_packs = [];
        pack_index_builder = add_all s.pack_index_builder idx;
      }

      -- the layers, by the pack that is written and the pack of the content
      layers :
          (m j : PackPrefix) (f : PackPrefix → Option PendingPack) (id : ContentId)
          (c : Option Info)
          → ((m ≡ j → ⊥) → lookup_info pp.current_pack_items id ≡ none)
          → or_else (in_pack (update f m none j) id) (
              or_else
                (or_else
                  (lookup_info pp.current_pack_items id)
                  (lookup_info s.pack_index_builder id))
                c)
            ≡ or_else
                (in_pack (update f m (some pp) j) id)
                (or_else (lookup_info s.pack_index_builder id) c)
      layers PackPrefix.regular PackPrefix.regular f id c h =
          or_else_assoc (lookup_info pp.current_pack_items id) (lookup_info s.pack_index_builder id)
            c
      layers PackPrefix.special PackPrefix.special f id c h =
          or_else_assoc (lookup_info pp.current_pack_items id) (lookup_info s.pack_index_builder id)
            c
      layers PackPrefix.regular PackPrefix.special f id c h = rw (h two_prefixes) refl
      layers PackPrefix.special PackPrefix.regular f id c h =
          rw (h (λ e. two_prefixes (sym e))) refl

      after-seen : (id : ContentId) → seen env after id ≡ seen env (set_pending s k (some pp)) id
      unfolding seen
      after-seen id =
          rw (built id, keeps id)
            (layers k (pack_prefix_for_content_id id) s.pending_packs id (committed env s.world id)
              (λ ne. elsewhere id (pack_prefix_for_content_id id) ne refl))

      -- a pack that stays
      stays :
          (j : PackPrefix) (id : ContentId) (i : Info)
          → in_pack (update s.pending_packs k none j) id ≡ some i
          → (in_pack (update s.pending_packs k (some pp) j) id ≡ some i) × (k ≡ j → ⊥)
      stays j id i e = by_prefix k j s.pending_packs e
        where
          by_prefix :
              (m j : PackPrefix) (f : PackPrefix → Option PendingPack)
              → in_pack (update f m none j) id ≡ some i
              → (in_pack (update f m (some pp) j) id ≡ some i) × (m ≡ j → ⊥)
          by_prefix PackPrefix.regular PackPrefix.regular f e = absurd (no_pack id i e)
          by_prefix PackPrefix.special PackPrefix.special f e = absurd (no_pack id i e)
          by_prefix PackPrefix.regular PackPrefix.special f e = (e, two_prefixes)
          by_prefix PackPrefix.special PackPrefix.regular f e = (e, λ x. two_prefixes (sym x))

      prefix_of :
          (j : PackPrefix) (o : Option PendingPack) (id : ContentId) (i : Info)
          → PackOf env j o
          → in_pack o id ≡ some i
          → pack_prefix_for_content_id id ≡ j
      prefix_of j none id i p e = absurd (no_pack id i e)
      prefix_of j (some q) id i p e = p.2 id i e

      removed :
          (m j : PackPrefix) (f : PackPrefix → Option PendingPack)
          → PackOf env j (update f m (some pp) j)
          → PackOf env j (update f m none j)
      removed PackPrefix.regular PackPrefix.regular f p = tt
      removed PackPrefix.special PackPrefix.special f p = tt
      removed PackPrefix.regular PackPrefix.special f p = p
      removed PackPrefix.special PackPrefix.regular f p = p

      after-Valid : Valid env after
      after-Valid = record {
        writing = refl;
        failed = refl;
        packs = λ j. removed k j s.pending_packs (v.packs j);
        newer_built = λ j id i e.
            let (here, ne) = stays j id i e in
            let none_here =
              elsewhere id j ne
                (prefix_of j (update s.pending_packs k (some pp) j) id i (v.packs j) here) in
            rw (built id, none_here) (v.newer_built j id i here);
        newer_pending = λ j id i e. rw (keeps id) (v.newer_pending j id i (stays j id i e).0);
        newer_committed = λ id i e.
            rw (keeps id)
              (in_built id i (lookup_info pp.current_pack_items id) refl (sym (built id) ∙ e));
      }
        where
          in_built :
              (id : ContentId) (i : Info) (o : Option Info)
              → lookup_info pp.current_pack_items id ≡ o
              → or_else o (lookup_info s.pack_index_builder id) ≡ some i
              → Newer i (committed env s.world id)
          in_built id i none h e = v.newer_committed id i e
          in_built id i (some j) h e = rw (← same_some j i e) ((item-Newer id j h).1)

      pub after-Keeps : Keeps env (set_pending s k (some pp)) after
      after-Keeps = record { valid = after-Valid; same = after-seen; count = refl }
