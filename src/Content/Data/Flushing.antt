-- ===== src/Content/Data/Flushing.antt =====
-- Flush of repo/content/content_manager.go preserves the bytes of all contents.
use mathlib.Core.Path.{subst}
use kopia.Prelude.{
  ℕ, ◌≡◌, refl, sym, ap, ◌∙◌, inl, inr, Bool, true, false, List, [], Option, none, some, Result, ok,
  err, if◌then◌else◌, length, Bool-cases, ◌==◌, ltb,
}
use kopia.Content.Action.{Outcome, Outcome-imp, Outcome-bind, Outcome-when, returns, Act, bind}
use kopia.Content.Committing.{flush_pack_indexes-Flushed, raised, unset}
use kopia.Content.Data.{Storage, Sound, Small, PendingSmall, Preserves}
use kopia.Content.Data.Preserving.{Preserves-refl, Preserves-trans, frame-Preserves}
use kopia.Content.Data.Writing.{write_pack-Preserves}
use kopia.Content.Flushing.{
  Finished, Without, both_gone, same_pending, retry_failed_packs-skip, touch-Keeps, Keeps-refl,
  Keeps-trans,
}
use kopia.Content.Packs.{
  finish_all_packs, finish_pack_of, flush_pack_indexes, commit_builder, flush, flush_all,
  maybe_flush_based_on_time, on_world,
}
use kopia.Content.Seen.{Lawful, Valid, Keeps, PackOf}
use kopia.Content.State.{PackPrefix, PendingPack, Environment, Manager, update, set_pending}
use kopia.Content.Storing.{write_pack-Gone}
use kopia.Content.Pending.{update-same, each}

module _ {W E : Type 0} (env : Environment W E) (blob : W → List ℕ → Option (List ℕ)) where
  -- nothing else is pending, and the pack blobs are the same
  abbrev pub Framed : Manager W → Manager W → Type 0
  Framed s t =
      (t.pending_packs ≡ s.pending_packs) × ((n : List ℕ) → blob t.world n ≡ blob s.world n)

  pub bind-Framed :
      {A B : Type 0} (s : Manager W) (x : Result E A × Manager W) (f : A → Act (Manager W) E B)
      → Framed s x.1
      → ((a : A) (t : Manager W) → Framed t (f a t).1)
      → Framed s (bind x f).1
  bind-Framed s (ok a, t) f h k = ((k a t).0 ∙ h.0, λ n. (k a t).1 n ∙ h.1 n)
  bind-Framed s (err e, t) f h k = h

  module _ (Faulty : E → Type 0) (law : Lawful env Faulty) (store : Storage env blob) where
    either :
        (b : Bool) (s t u : Manager W) → Framed s t → Framed s u → Framed s (if b then t else u)
    either true s t u h k = h
    either false s t u h k = k

    commit_builder-Framed : (s : Manager W) → Framed s (commit_builder env s).1
    commit_builder-Framed s = elim (Bool-cases (length s.pack_index_builder == 0)) [
      | inl e ↦ rw e (refl, λ n. refl)
      | inr e ↦ rw e (
          bind-Framed s (on_world (env.commit_index s.pack_index_builder) s)
            (λ u t. (ok tt, record t { pack_index_builder = [] }))
            (refl, λ n. store.commit_same s.pack_index_builder s.world n)
            (λ u t. (refl, λ n. refl)))
    ]

    flush_pack_indexes-Framed : (s : Manager W) → Framed s (flush_pack_indexes env s).1
    unfolding flush_pack_indexes
    flush_pack_indexes-Framed s = elim (Bool-cases (ltb 0 s.disable_index_flush_count)) [
      | inl e ↦ rw e (refl, λ n. refl)
      | inr e ↦ rw e (
          bind-Framed s (commit_builder env s) _ (commit_builder-Framed s)
            (λ u t. (refl, λ n. refl)))
    ]

    finish_pack_of-Preserves :
        (s : Manager W) (k : PackPrefix) (p : Option PendingPack)
        → s.pending_packs k ≡ p
        → Valid env s
        → Sound env blob s
        → Small s
        → Outcome Faulty
            (λ u t. Without env Faulty law s k u t × Preserves env blob s t)
            (finish_pack_of env p s)
    finish_pack_of-Preserves s k none e v p m = returns tt s (
      (Keeps-refl env s v, sym (update-same s.pending_packs k none e)),
      Preserves-refl env blob s v p m,
    )
    finish_pack_of-Preserves s k (some pp) e v p m =
        let own : pp.prefix ≡ k = (subst (λ o. PackOf env k o) e (v.packs k)).0 in
        let same : set_pending s pp.prefix (some pp) ≡ s =
          ap (λ j. set_pending s j (some pp)) own ∙ same_pending env s k (some pp) e in
        let valid = subst (λ t. Valid env t) (sym same) v in
        Outcome-imp Faulty
          (λ u t g. (
            (
              subst (λ x. Keeps env x t) same g.0.0,
              g.0.1 ∙ ap (λ j. update s.pending_packs j none) own,
            ),
            subst (λ x. Preserves env blob x t) same g.1,
          ))
          (Outcome-when Faulty (write_pack-Gone env Faulty law s pp valid) (λ a d g.
            write_pack-Preserves env blob Faulty law store s pp a valid
              (subst (λ t. Sound env blob t) (sym same) p)
              (λ j. each (λ l o. PendingSmall o) pp.prefix j s.pending_packs none tt (m j)) g d))

    finish_all_packs-Preserves :
        (s : Manager W)
        → Valid env s
        → Sound env blob s
        → Small s
        → Outcome Faulty
            (λ u t. Finished env s u t × Preserves env blob s t)
            (finish_all_packs env s)
    unfolding finish_all_packs
    finish_all_packs-Preserves s v p m =
        Outcome-bind Faulty
          (finish_pack_of-Preserves s PackPrefix.regular (s.pending_packs PackPrefix.regular) refl v
            p m)
          (λ u t a.
            Outcome-imp Faulty
              (λ u' t' b. (
                (
                  Keeps-trans env s t t' a.0.0 b.0.0,
                  λ k.
                      both_gone env Faulty law s.pending_packs t.pending_packs t'.pending_packs k
                        a.0.1 b.0.1,
                ),
                Preserves-trans env blob s t t' a.1 b.1,
              ))
              (finish_pack_of-Preserves t PackPrefix.special (t.pending_packs PackPrefix.special)
                refl a.0.0.valid a.1.sound a.1.small))

    flush_all-Preserves :
        (s : Manager W)
        → Valid env s
        → Sound env blob s
        → Small s
        → Outcome Faulty (λ u t. Preserves env blob s t) (flush_all env s)
    flush_all-Preserves s v p m = rw (retry_failed_packs-skip env Faulty law s v) (
        Outcome-bind Faulty (finish_all_packs-Preserves s v p m) (λ u t a.
          Outcome-imp Faulty (λ u' t' b. Preserves-trans env blob s t t' a.1 b.1)
            (Outcome-when Faulty (flush_pack_indexes-Flushed env Faulty law t a.0.0.valid a.0.1)
              (λ w d b.
                let f = flush_pack_indexes-Framed t in
                frame-Preserves env blob t _ b.0.0 f.0 f.1 a.1.sound a.1.small))))

    -- Flush preserves the bytes of all contents.
    pub flush-Preserves :
        (s : Manager W)
        → Valid env s
        → Sound env blob s
        → Small s
        → Outcome Faulty (λ u t. Preserves env blob s t) (flush env s)
    unfolding flush
    flush-Preserves s v p m =
        let start = touch-Keeps env s s.revision true s.flush_pack_indexes_after v in
        Outcome-bind Faulty
          (raised env Faulty law (env.mutable_parameters s.world) s (law.parameters_fail s.world))
          (λ mp t same. rw (same.0) (
            unset env Faulty law
              (λ t b.
                let later =
                  touch-Keeps env t t.revision false t.flush_pack_indexes_after b.keeps.valid in
                Preserves-trans env blob s _ _
                  (frame-Preserves env blob s (record s { flushing = true }) start refl (λ n. refl)
                    p m)
                  (Preserves-trans env blob (record s { flushing = true }) t _ b
                    (frame-Preserves env blob t (record t { flushing = false }) later refl
                      (λ n. refl) b.sound b.small)))
              (flush_all-Preserves (record s { flushing = true }) start.valid p m)))

    pub maybe_flush-Preserves :
        (s : Manager W)
        → Valid env s
        → Sound env blob s
        → Small s
        → Outcome Faulty (λ u t. Preserves env blob s t) (maybe_flush_based_on_time env s)
    unfolding maybe_flush_based_on_time
    maybe_flush-Preserves s v p m =
        elim (Bool-cases (ltb s.flush_pack_indexes_after (env.time_now s.world))) [
          | inl e ↦ rw e (flush-Preserves s v p m)
          | inr e ↦ rw e (returns tt s (Preserves-refl env blob s v p m))
        ]
