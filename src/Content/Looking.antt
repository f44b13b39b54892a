-- ===== src/Content/Looking.antt =====
-- The lookup of a content's info in repo/content/content_manager.go finds what is seen of it.
use kopia.Prelude.{
  same_some, arith, ◌≡◌, refl, sym, ap, ◌∙◌, inl, inr, Option, none, some, Result, ok, err,
  Option-cases,
}
use kopia.Content.Action.{Outcome, returns, bind, attempt, value_of, pure}
use kopia.Content.Finishing.{two_prefixes}
use kopia.Content.Flushing.{Keeps-refl}
use kopia.Content.Reading.{get_content_info, found_or_committed}
use kopia.Content.Seen.{Lawful, Valid, Keeps, PackOf, committed, seen, pending_info}
use kopia.Content.State.{
  PackPrefix, PendingPack, Environment, Manager, in_pack, in_packs, or_else, with_pack,
  get_overlay_content_info, pack_prefix_for_content_id,
}
use kopia.Index.Builder.{lookup_info}
use kopia.Index.ContentId.{ContentId}
use kopia.Index.Info.{Info}

-- the info of what a lookup finds
abbrev pub info_of : Option (Option PendingPack × Info) → Option Info
info_of none = none
info_of (some found) = some found.1

abbrev unpacked : Info → Option PendingPack × Info
unpacked i = (none, i)

with_pack-info : (p : Option PendingPack) (o : Option Info) → info_of (with_pack p o) ≡ o
with_pack-info p none = refl
with_pack-info p (some i) = refl

info_of-or_else :
    (a b : Option (Option PendingPack × Info))
    → info_of (or_else a b) ≡ or_else (info_of a) (info_of b)
info_of-or_else none b = refl
info_of-or_else (some x) b = refl

module _ {W E : Type 0} (env : Environment W E) where
  -- a pack of another prefix does not have the content
  pub not_there :
      (k : PackPrefix) (o : Option PendingPack) (id : ContentId)
      → PackOf env k o
      → (pack_prefix_for_content_id id ≡ k → ⊥)
      → in_pack o id ≡ none
  not_there k none id p ne = refl
  not_there k (some pp) id p ne = elim (Option-cases (lookup_info pp.current_pack_items id)) [
    | inl e ↦ e
    | inr (i, e) ↦ absurd (ne (p.2 id i e))
  ]

  overlay_info :
      (s : Manager W) (id : ContentId)
      → Valid env s
      → info_of (get_overlay_content_info s id)
        ≡ or_else (in_pack (s.pending_packs PackPrefix.regular) id) (
            or_else
              (in_pack (s.pending_packs PackPrefix.special) id)
              (lookup_info s.pack_index_builder id))
  unfolding get_overlay_content_info in_packs
  overlay_info s id v =
      let r = s.pending_packs PackPrefix.regular in
      let p = s.pending_packs PackPrefix.special in
      let built = with_pack none (lookup_info s.pack_index_builder id) in
      let written : in_packs s.writing_packs id ≡ none = ap (λ ps. in_packs ps id) v.writing in
      rw
        (
          written,
          info_of-or_else (with_pack r (in_pack r id)) (or_else (with_pack p (in_pack p id)) built),
          info_of-or_else (with_pack p (in_pack p id)) built,
          with_pack-info r (in_pack r id),
          with_pack-info p (in_pack p id),
          with_pack-info none (lookup_info s.pack_index_builder id),
        )
        refl

  -- the own pack is the only one that may have the content
  own_pack :
      (k : PackPrefix) (f : PackPrefix → Option PendingPack) (id : ContentId) (c : Option Info)
      → ((j : PackPrefix) → PackOf env j (f j))
      → pack_prefix_for_content_id id ≡ k
      → or_else (in_pack (f PackPrefix.regular) id) (or_else (in_pack (f PackPrefix.special) id) c)
        ≡ or_else (in_pack (f k) id) c
  own_pack PackPrefix.regular f id c p e =
      ap (λ o. or_else (in_pack (f PackPrefix.regular) id) (or_else o c))
        (not_there PackPrefix.special (f PackPrefix.special) id (p PackPrefix.special)
          (λ d. two_prefixes (sym e ∙ d)))
  own_pack PackPrefix.special f id c p e =
      ap (λ o. or_else o (or_else (in_pack (f PackPrefix.special) id) c))
        (not_there PackPrefix.regular (f PackPrefix.regular) id (p PackPrefix.regular)
          (λ d. two_prefixes (sym d ∙ e)))

  pub overlay_own :
      (s : Manager W) (id : ContentId)
      → Valid env s
      → info_of (get_overlay_content_info s id)
        ≡ or_else (pending_info env s id) (lookup_info s.pack_index_builder id)
  overlay_own s id v =
      overlay_info s id v
      ∙ own_pack (pack_prefix_for_content_id id) s.pending_packs id
          (lookup_info s.pack_index_builder id) v.packs refl

  or_else_pair : (a b c : Option Info) → or_else a (or_else b c) ≡ or_else (or_else a b) c
  or_else_pair none b c = refl
  or_else_pair (some i) b c = refl

  pub seen_overlay :
      (s : Manager W) (id : ContentId)
      → Valid env s
      → seen env s id ≡ or_else (info_of (get_overlay_content_info s id)) (committed env s.world id)
  unfolding seen
  seen_overlay s id v =
      or_else_pair (pending_info env s id) (lookup_info s.pack_index_builder id)
        (committed env s.world id)
      ∙ ap (λ o. or_else o (committed env s.world id)) (sym (overlay_own s id v))

  -- the world changes, what is committed does not
  pub world-Keeps :
      (s : Manager W) (w : W)
      → Valid env s
      → ((id : ContentId) → committed env w id ≡ committed env s.world id)
      → Keeps env s (record s { world = w })
  unfolding seen
  world-Keeps s w v keeps = record {
    valid = record {
      writing = v.writing;
      failed = v.failed;
      packs = v.packs;
      newer_built = v.newer_built;
      newer_pending = λ k id i e. rw (keeps id) (v.newer_pending k id i e);
      newer_committed = λ id i e. rw (keeps id) (v.newer_committed id i e);
    };
    same = λ id. rw (keeps id) refl;
    count = refl;
  }

  module _ (Faulty : E → Type 0) (law : Lawful env Faulty)
      (refreshes : (w : W) → (env.refresh w).0 ≡ none) where
    -- what a lookup finds is what is seen
    abbrev pub Looked :
        Manager W → ContentId → Option (Option PendingPack × Info) → Manager W → Type 0
    Looked s id found t = Keeps env s t × (info_of found ≡ seen env s id)

    attempt_committed :
        (s : Manager W) (w : W) (id : ContentId)
        → Valid env s
        → Keeps env s (record s { world = w })
        → committed env w id ≡ seen env s id
        → Outcome Faulty (Looked s id) (
            attempt
              (λ t. bind (env.get_committed w id, record s { world = w }) (λ i. pure (unpacked i)))
              s)
    attempt_committed s w id v keeps e = by_result (env.get_committed w id) e
      where
        by_result :
            (r : Result E Info)
            → value_of r ≡ seen env s id
            → Outcome Faulty
                (Looked s id)
                (attempt (λ t. bind (r, record s { world = w }) (λ i. pure (unpacked i))) s)
        by_result (ok i) e = returns _ _ (keeps, e)
        by_result (err x) e = returns _ _ (keeps, e)

    attempt_found :
        (s : Manager W) (id : ContentId) (o : Option (Option PendingPack × Info))
        → Valid env s
        → seen env s id ≡ or_else (info_of o) (committed env s.world id)
        → Outcome Faulty (Looked s id) (attempt (found_or_committed env id o) s)
    attempt_found s id (some found) v e = returns _ _ (Keeps-refl env s v, sym e)
    attempt_found s id none v e =
        let w = (env.refresh s.world).1 in
        let keeps = law.refresh_keeps s.world in
        rw (refreshes s.world)
          (attempt_committed s w id v (world-Keeps s w v keeps) (keeps id ∙ sym e))

    -- The lookup of a content, with no info in place of an error.
    pub attempt-Looked :
        (s : Manager W) (id : ContentId)
        → Valid env s
        → Outcome Faulty (Looked s id) (attempt (get_content_info env id) s)
    unfolding get_content_info
    attempt-Looked s id v =
        attempt_found s id (get_overlay_content_info s id) v (seen_overlay s id v)

    committed-found :
        (s : Manager W) (w : W) (id : ContentId) (i : Info)
        → Keeps env s (record s { world = w })
        → committed env w id ≡ some i
        → Outcome Faulty
            (λ found t. Keeps env s t × (found.1 ≡ i))
            (bind (env.get_committed w id, record s { world = w }) (λ i. pure (unpacked i)))
    committed-found s w id i keeps e = by_result (env.get_committed w id) e
      where
        by_result :
            (r : Result E Info)
            → value_of r ≡ some i
            → Outcome Faulty
                (λ found t. Keeps env s t × (found.1 ≡ i))
                (bind (r, record s { world = w }) (λ i. pure (unpacked i)))
        by_result (ok j) e = returns _ _ (keeps, same_some j i e)
        by_result (err x) e = absurd (ground (arith, e))

    found_is :
        (s : Manager W) (id : ContentId) (i : Info) (o : Option (Option PendingPack × Info))
        → Valid env s
        → or_else (info_of o) (committed env s.world id) ≡ some i
        → Outcome Faulty (λ found t. Keeps env s t × (found.1 ≡ i)) (found_or_committed env id o s)
    found_is s id i (some found) v e = returns found s (Keeps-refl env s v, same_some found.1 i e)
    found_is s id i none v e =
        let w = (env.refresh s.world).1 in
        let keeps = law.refresh_keeps s.world in
        rw (refreshes s.world) (committed-found s w id i (world-Keeps s w v keeps) (keeps id ∙ e))

    -- The lookup of a content that is seen gives its info.
    pub get_content_info-seen :
        (s : Manager W) (id : ContentId) (i : Info)
        → Valid env s
        → seen env s id ≡ some i
        → Outcome Faulty (λ found t. Keeps env s t × (found.1 ≡ i)) (get_content_info env id s)
    unfolding get_content_info
    get_content_info-seen s id i v e =
        found_is s id i (get_overlay_content_info s id) v (sym (seen_overlay s id v) ∙ e)
