-- ===== src/Content/Putting.antt =====
-- An info that is put in a pending pack of repo/content/content_manager.go is seen, and no other content
-- is seen in another way.
use mathlib.Core.Path.{subst}
use kopia.Prelude.{
  same_some, ℕ, ◌<◌, ◌≡◌, refl, sym, ap, ◌∙◌, inl, inr, true, false, List, Option, none, some,
  if◌then◌else◌, arith, Bool-cases, ◌⊎◌,
}
use kopia.Content.Finishing.{two_prefixes}
use kopia.Content.Maps.{Newer, put_info-NoDup}
use kopia.Content.Seen.{Valid, Keeps, PackOf, committed, seen, pending_info}
use kopia.Content.State.{
  PackPrefix, PendingPack, Environment, Manager, update, set_pending, in_pack, or_else,
  pack_prefix_for_content_id, content_write_time,
}
use kopia.Index.Builder.{lookup_info, put_info, same_id}
use kopia.Index.Builder.Adding.{lookup_info-put_info, same_id-eq, same_id_refl}
use kopia.Index.ContentId.{ContentId}
use kopia.Index.Info.{Info}

Newer-trans :
    (i j : Info) (o : Option Info)
    → j.timestamp_seconds < i.timestamp_seconds
    → Newer j o
    → Newer i o
Newer-trans i j none h n = tt
Newer-trans i j (some k) h n = omega (arith, h, n)

-- the time of a write is later than the one before
pub content_write_time-later : (t previous : ℕ) → previous < content_write_time t (some previous)
unfolding content_write_time
content_write_time-later t previous = ground arith

module _ {W E : Type 0} (env : Environment W E) where
  -- an info newer than those that its pack covers
  abbrev pub Newest : Manager W → ContentId → Info → Type 0
  Newest s id i = Newer i (lookup_info s.pack_index_builder id) × Newer i (committed env s.world id)

  layers-Newer :
      (s : Manager W) (id : ContentId) (i : Info) (p b c : Option Info)
      → ((j : Info) → p ≡ some j → Newer j b × Newer j c)
      → ((j : Info) → b ≡ some j → Newer j c)
      → Newer i (or_else p (or_else b c))
      → Newer i b × Newer i c
  layers-Newer s id i none none c p b n = (tt, n)
  layers-Newer s id i none (some j) c p b n = (n, Newer-trans i j c n (b j refl))
  layers-Newer s id i (some j) o c p b n =
      let under = p j refl in (Newer-trans i j o n under.0, Newer-trans i j c n under.1)

  -- What is newer than what is seen is newer than all there is.
  pub Newest-seen :
      (s : Manager W) (id : ContentId) (i : Info)
      → Valid env s
      → Newer i (seen env s id)
      → Newest s id i
  unfolding seen
  Newest-seen s id i v n =
      layers-Newer s id i (pending_info env s id) (lookup_info s.pack_index_builder id)
        (committed env s.world id)
        (λ j e. (
          v.newer_built (pack_prefix_for_content_id id) id j e,
          v.newer_pending (pack_prefix_for_content_id id) id j e,
        ))
        (λ j e. v.newer_committed id j e) n

  -- a pack in place of another
  module _ (s : Manager W) (k : PackPrefix) (pp : PendingPack) (v : Valid env s)
      (own : PackOf env k (some pp))
      (newest : (id : ContentId) (i : Info)
        → lookup_info pp.current_pack_items id ≡ some i
        → Newest s id i) where
    replaced :
        (k j : PackPrefix) (f : PackPrefix → Option PendingPack) (id : ContentId) (i : Info)
        → in_pack (update f k (some pp) j) id ≡ some i
        → (in_pack (f j) id ≡ some i) ⊎ (lookup_info pp.current_pack_items id ≡ some i)
    replaced PackPrefix.regular PackPrefix.regular f id i e = inr e
    replaced PackPrefix.special PackPrefix.special f id i e = inr e
    replaced PackPrefix.regular PackPrefix.special f id i e = inl e
    replaced PackPrefix.special PackPrefix.regular f id i e = inl e

    packs_of :
        (k j : PackPrefix) (f : PackPrefix → Option PendingPack)
        → PackOf env k (some pp)
        → PackOf env j (f j)
        → PackOf env j (update f k (some pp) j)
    packs_of PackPrefix.regular PackPrefix.regular f a b = a
    packs_of PackPrefix.special PackPrefix.special f a b = a
    packs_of PackPrefix.regular PackPrefix.special f a b = b
    packs_of PackPrefix.special PackPrefix.regular f a b = b

    pub set_pending-Valid : Valid env (set_pending s k (some pp))
    set_pending-Valid = record {
      writing = v.writing;
      failed = v.failed;
      packs = λ j. packs_of k j s.pending_packs own (v.packs j);
      newer_built = λ j id i e. elim (replaced k j s.pending_packs id i e) [
        | inl h ↦ v.newer_built j id i h
        | inr h ↦ (newest id i h).0
      ];
      newer_pending = λ j id i e. elim (replaced k j s.pending_packs id i e) [
        | inl h ↦ v.newer_pending j id i h
        | inr h ↦ (newest id i h).1
      ];
      newer_committed = v.newer_committed;
    }

  -- Another pack, with the same contents: nothing is seen in another way.
  pub set_pending-Keeps :
      (s : Manager W) (k : PackPrefix) (pp : PendingPack)
      → Valid env s
      → PackOf env k (some pp)
      → ((id : ContentId) → lookup_info pp.current_pack_items id ≡ in_pack (s.pending_packs k) id)
      → Keeps env s (set_pending s k (some pp))
  unfolding seen
  set_pending-Keeps s k pp v own same = record {
    valid = set_pending-Valid s k pp v own (λ id i e.
        let here = sym (same id) ∙ e in (v.newer_built k id i here, v.newer_pending k id i here));
    same = λ id.
        ap
          (λ o.
            or_else o (or_else (lookup_info s.pack_index_builder id) (committed env s.world id)))
          (same_in k (pack_prefix_for_content_id id) s.pending_packs id (same id));
    count = refl;
  }
    where
      same_in :
          (k j : PackPrefix) (f : PackPrefix → Option PendingPack) (id : ContentId)
          → lookup_info pp.current_pack_items id ≡ in_pack (f k) id
          → in_pack (update f k (some pp) j) id ≡ in_pack (f j) id
      same_in PackPrefix.regular PackPrefix.regular f id e = e
      same_in PackPrefix.special PackPrefix.special f id e = e
      same_in PackPrefix.regular PackPrefix.special f id e = refl
      same_in PackPrefix.special PackPrefix.regular f id e = refl

  -- an info is seen, and no other content in another way
  pub record Put (s : Manager W) (i : Info) (t : Manager W) : Type 0 where
    pub valid : Valid env t
    pub there : seen env t i.content_id ≡ some i
    pub others : (j : ContentId) → same_id i.content_id j ≡ false → seen env t j ≡ seen env s j

  module _ (s : Manager W) (pp : PendingPack) (i : Info) (data_bytes : List ℕ) (v : Valid env s)
      (has : s.pending_packs (pack_prefix_for_content_id i.content_id) ≡ some pp)
      (newest : Newest s i.content_id i) where
    abbrev own_prefix : PackPrefix
    own_prefix = pack_prefix_for_content_id i.content_id

    abbrev with_item : PendingPack
    with_item = record pp {
      current_pack_data = data_bytes;
      current_pack_items = put_info pp.current_pack_items i;
    }

    old : PackOf env own_prefix (some pp)
    old = subst (λ o. PackOf env own_prefix o) has (v.packs own_prefix)

    -- an info of the pack is the new one or was there
    item_cases :
        (id : ContentId) (x : Info)
        → lookup_info with_item.current_pack_items id ≡ some x
        → ((i.content_id ≡ id) × (i ≡ x)) ⊎ (lookup_info pp.current_pack_items id ≡ some x)
    item_cases id x e = elim (Bool-cases (same_id i.content_id id)) [
      | inl h ↦ inl (
        same_id-eq i.content_id id h,
        same_some i x (rw (lookup_info-put_info pp.current_pack_items i id, h) at e),
      )
      | inr h ↦ inr (rw (lookup_info-put_info pp.current_pack_items i id, h) at e)
    ]

    with_item-PackOf : PackOf env own_prefix (some with_item)
    with_item-PackOf = (
      old.0,
      put_info-NoDup pp.current_pack_items i old.1,
      λ id x e. elim (item_cases id x e) [
        | inl h ↦ ap pack_prefix_for_content_id (sym h.0)
        | inr h ↦ old.2 id x h
      ],
    )

    with_item-Newest :
        (id : ContentId) (x : Info)
        → lookup_info with_item.current_pack_items id ≡ some x
        → Newest s id x
    with_item-Newest id x e = elim (item_cases id x e) [
      | inl h ↦ subst (λ y. Newest s id y) h.1 (subst (λ d. Newest s d i) h.0 newest)
      | inr h ↦
          let here : in_pack (s.pending_packs own_prefix) id ≡ some x =
            ap (λ o. in_pack o id) has ∙ h in
          (v.newer_built own_prefix id x here, v.newer_pending own_prefix id x here)
    ]

    pending_after :
        (k j : PackPrefix) (f : PackPrefix → Option PendingPack) (id : ContentId)
        → f k ≡ some pp
        → (same_id i.content_id id ≡ true → k ≡ j)
        → in_pack (update f k (some with_item) j) id
          ≡ (if same_id i.content_id id then some i else in_pack (f j) id)
    pending_after PackPrefix.regular PackPrefix.regular f id e h =
        rw (e) (lookup_info-put_info pp.current_pack_items i id)
    pending_after PackPrefix.special PackPrefix.special f id e h =
        rw (e) (lookup_info-put_info pp.current_pack_items i id)
    pending_after PackPrefix.regular PackPrefix.special f id e h =
        elim (Bool-cases (same_id i.content_id id)) [
          | inl d ↦ absurd (two_prefixes (h d))
          | inr d ↦ rw d refl
        ]
    pending_after PackPrefix.special PackPrefix.regular f id e h =
        elim (Bool-cases (same_id i.content_id id)) [
          | inl d ↦ absurd (two_prefixes (sym (h d)))
          | inr d ↦ rw d refl
        ]

    after_put :
        (id : ContentId)
        → pending_info env (set_pending s own_prefix (some with_item)) id
          ≡ (if same_id i.content_id id then some i else pending_info env s id)
    after_put id =
        pending_after own_prefix (pack_prefix_for_content_id id) s.pending_packs id has
          (λ h. ap pack_prefix_for_content_id (same_id-eq i.content_id id h))

    -- An info newer than all of its content is put in the pack.
    pub with_item-Put : Put s i (set_pending s own_prefix (some with_item))
    unfolding seen
    with_item-Put = record {
      valid = set_pending-Valid s own_prefix with_item v with_item-PackOf with_item-Newest;
      there = rw (after_put i.content_id, same_id_refl i.content_id) refl;
      others = λ j h. rw (after_put j, h) refl;
    }
