-- ===== src/Content/Committing.antt =====
-- Flush of repo/content/content_manager.go: every content is seen as before, and all are committed.
use kopia.Prelude.{
  ◌+◌, ◌≡◌, refl, sym, ap, ◌∙◌, inl, inr, true, false, [], Option, none, some, Result, ok, err,
  arith, Bool-cases, length, ltb, ◌==◌,
}
use kopia.Content.Action.{Outcome, returns, fails, Outcome-bind, Outcome-imp, returned}
use kopia.Content.Finishing.{no_pack}
use kopia.Content.Maps.{Newer, Newer-greater}
use kopia.Content.Packs.{
  commit_builder, flush_pack_indexes, flush, flush_all, maybe_flush_based_on_time, on_world,
}
use kopia.Content.Seen.{
  MayFail, MayRaise, Lawful, Valid, Keeps, committed, seen, pending_info, merged,
}
use kopia.Content.State.{
  PackPrefix, Environment, Manager, in_pack, or_else, pack_prefix_for_content_id,
}
use kopia.Content.Writing.{empty_lookup}
use kopia.Index.Builder.{lookup_info}
use kopia.Index.ContentId.{ContentId}
use kopia.Index.Info.{Info}
use kopia.Content.Flushing.{
  Keeps-refl, Keeps-trans, touch-Keeps, Finished, finish_all_packs-Finished,
  retry_failed_packs-skip,
}

module _ {W E : Type 0} (env : Environment W E) where
  merged-newest :
      (o c : Option Info) → ((i : Info) → o ≡ some i → Newer i c) → merged o c ≡ or_else o c
  merged-newest none c h = refl
  merged-newest (some i) c h = rw (Newer-greater i c (h i refl)) refl

  -- Every content that is seen is committed.
  abbrev pub AllCommitted : Manager W → Unit {0} → Manager W → Type 0
  AllCommitted s u t =
      Finished env s u t × ((id : ContentId) → committed env t.world id ≡ seen env s id)

  -- what is flushed: all, unless flushes are disabled
  abbrev pub Flushed : Manager W → Unit {0} → Manager W → Type 0
  Flushed s u t =
      Finished env s u t
      × (s.disable_index_flush_count ≡ 0
          → (id : ContentId) → committed env t.world id ≡ seen env s id)

  module _ (Faulty : E → Type 0) (law : Lawful env Faulty) where
    none_pending :
        (s : Manager W) (id : ContentId)
        → ((k : PackPrefix) → s.pending_packs k ≡ none)
        → pending_info env s id ≡ none
    none_pending s id h = ap (λ p. in_pack p id) (h (pack_prefix_for_content_id id))

    seen_settled :
        (s : Manager W) (id : ContentId)
        → ((k : PackPrefix) → s.pending_packs k ≡ none)
        → seen env s id ≡ or_else (lookup_info s.pack_index_builder id) (committed env s.world id)
    unfolding seen
    seen_settled s id h = rw (none_pending s id h) refl

    -- the builder's contents are committed
    module _ (s : Manager W) (v : Valid env s) (h : (k : PackPrefix) → s.pending_packs k ≡ none)
        (w : W)
        (commits : (id : ContentId)
          → committed env w id
            ≡ or_else (lookup_info s.pack_index_builder id) (committed env s.world id)) where
      abbrev cleared : Manager W
      cleared = record s { world = w; pack_index_builder = [] }

      no_item :
          (k : PackPrefix) (id : ContentId) (i : Info) → in_pack (s.pending_packs k) id ≡ some i → ⊥
      no_item k id i e = no_pack id i (sym (ap (λ p. in_pack p id) (h k)) ∙ e)

      cleared-AllCommitted : AllCommitted s tt cleared
      unfolding lookup_info
      cleared-AllCommitted =
          let valid : Valid env cleared = record {
            writing = v.writing;
            failed = v.failed;
            packs = v.packs;
            newer_built = λ k id i e. absurd (no_item k id i e);
            newer_pending = λ k id i e. absurd (no_item k id i e);
            newer_committed = λ id i e. absurd (ground (arith, e));
          } in
          let same = λ (id : ContentId).
            seen_settled cleared id h ∙ (commits id ∙ sym (seen_settled s id h)) in
          (
            (record { valid = valid; same = same; count = refl }, h),
            λ id. commits id ∙ sym (seen_settled s id h),
          )

    on_world-Outcome :
        (s : Manager W) (f : W → Option E × W) (P : Unit {0} → Manager W → Type 0)
        → MayFail Faulty (f s.world).0
        → ((f s.world).0 ≡ none → P tt (record s { world = (f s.world).1 }))
        → Outcome Faulty P (on_world f s)
    on_world-Outcome s f P m p = by_error (f s.world).0 m p
      where
        by_error :
            (o : Option E)
            → MayFail Faulty o
            → (o ≡ none → P tt (record s { world = (f s.world).1 }))
            → Outcome Faulty P (returned o, record s { world = (f s.world).1 })
        by_error none m p = returns tt _ (p refl)
        by_error (some e) m p = fails e _ m

    commit_builder-AllCommitted :
        (s : Manager W)
        → Valid env s
        → ((k : PackPrefix) → s.pending_packs k ≡ none)
        → Outcome Faulty (AllCommitted s) (commit_builder env s)
    commit_builder-AllCommitted s v h = elim (Bool-cases (length s.pack_index_builder == 0)) [
      | inl e ↦
          let empty : length s.pack_index_builder ≡ 0 = ground (arith, e) in
          rw e (
            returns tt s (
              (Keeps-refl env s v, h),
              λ id. sym (
                  seen_settled s id h
                  ∙ ap (λ o. or_else o (committed env s.world id))
                      (empty_lookup s.pack_index_builder id empty)),
            ))
      | inr e ↦
          let is = s.pack_index_builder in
          let w = (env.commit_index is s.world).1 in
          let commits = λ (ok_ : (env.commit_index is s.world).0 ≡ none) (id : ContentId).
            law.commit_merges is s.world id ok_
            ∙ merged-newest (lookup_info is id) (committed env s.world id) (v.newer_committed id) in
          rw e (
            Outcome-bind Faulty
              (on_world-Outcome s (env.commit_index is)
                (λ u t. AllCommitted s tt (record t { pack_index_builder = [] }))
                (law.commit_fails is s.world) (λ ok_. cleared-AllCommitted s v h w (commits ok_)))
              (λ u t a. returns tt _ a))
    ]

    pub flush_pack_indexes-Flushed :
        (s : Manager W)
        → Valid env s
        → ((k : PackPrefix) → s.pending_packs k ≡ none)
        → Outcome Faulty (Flushed s) (flush_pack_indexes env s)
    unfolding flush_pack_indexes
    flush_pack_indexes-Flushed s v h = elim (Bool-cases (ltb 0 s.disable_index_flush_count)) [
      | inl e ↦ rw e (returns tt s ((Keeps-refl env s v, h), λ z. absurd (ground (arith, e, z))))
      | inr e ↦ rw e (
          Outcome-bind Faulty (commit_builder-AllCommitted s v h) (λ u t a.
            let touched =
              touch-Keeps env t t.revision t.flushing (env.time_now t.world + 600000000000)
                a.0.0.valid in
            returns tt _ ((Keeps-trans env s t _ a.0.0 touched, a.0.1), λ z. a.1)))
    ]

    flush_all-Flushed : (s : Manager W) → Valid env s → Outcome Faulty (Flushed s) (flush_all env s)
    flush_all-Flushed s v = rw (retry_failed_packs-skip env Faulty law s v) (
        Outcome-bind Faulty (finish_all_packs-Finished env Faulty law s v) (λ u t a.
          Outcome-imp Faulty
            (λ u' t' b. (
              (Keeps-trans env s t t' a.0 b.0.0, b.0.1),
              λ z id. b.1 (a.0.count ∙ z) id ∙ a.0.same id,
            ))
            (flush_pack_indexes-Flushed t a.0.valid a.1)))

    pub raised :
        {A : Type 0} (r : Result E A) (s : Manager W)
        → MayRaise Faulty r
        → Outcome Faulty (λ a t. (t ≡ s) × (r ≡ ok a)) (r, s)
    raised (ok a) s m = returns a s (refl, refl)
    raised (err e) s m = fails e s m

    pub unset :
        {P Q : Unit {0} → Manager W → Type 0} {x : Result E (Unit {0}) × Manager W}
        → ((t : Manager W) → P tt t → Q tt (record t { flushing = false }))
        → Outcome Faulty P x
        → Outcome Faulty Q (x.0, record x.1 { flushing = false })
    unset k (returns u t p) = returns u _ (k t p)
    unset k (fails e t p) = fails e _ p

    pub Flushed-touch :
        (s s1 t : Manager W)
        → Keeps env s s1
        → Flushed s1 tt t
        → Flushed s tt (record t { flushing = false })
    Flushed-touch s s1 t a b =
        let later = touch-Keeps env t t.revision false t.flush_pack_indexes_after b.0.0.valid in
        (
          (Keeps-trans env s s1 _ a (Keeps-trans env s1 t _ b.0.0 later), b.0.1),
          λ z id. b.1 (a.count ∙ z) id ∙ a.same id,
        )

    -- In a valid state Flush ends without an error, or with one of the surroundings. Without an
    -- error nothing is pending any more, every content is seen as before, and if flushes are not
    -- disabled, it is committed.
    pub flush-Flushed : (s : Manager W) → Valid env s → Outcome Faulty (Flushed s) (flush env s)
    unfolding flush
    flush-Flushed s v =
        let start = touch-Keeps env s s.revision true s.flush_pack_indexes_after v in
        Outcome-bind Faulty
          (raised (env.mutable_parameters s.world) s (law.parameters_fail s.world))
          (λ mp t same. rw (same.0) (
            unset (λ t b. Flushed-touch s _ t start b)
              (flush_all-Flushed (record s { flushing = true }) start.valid)))

    -- Flushing when the time has come keeps what is seen.
    pub maybe_flush-Keeps :
        (s : Manager W)
        → Valid env s
        → Outcome Faulty (λ u t. Keeps env s t) (maybe_flush_based_on_time env s)
    unfolding maybe_flush_based_on_time
    maybe_flush-Keeps s v =
        elim (Bool-cases (ltb s.flush_pack_indexes_after (env.time_now s.world))) [
          | inl e ↦ rw e (Outcome-imp Faulty (λ u t a. a.0.0) (flush-Flushed s v))
          | inr e ↦ rw e (returns tt s (Keeps-refl env s v))
        ]
