-- ===== src/Content/Flushing.antt =====
-- All pending packs of repo/content/content_manager.go are written: every content is seen as before.
use mathlib.Core.Path.{subst}
use kopia.Prelude.{ℕ, ◌≡◌, refl, sym, ap, ◌∙◌, Bool, Option, none, some, ok}
use kopia.Content.Action.{Outcome, returns, Outcome-bind, Outcome-imp}
use kopia.Content.Packs.{
  write_packs, retry_failed_packs, finish_prefix, finish_pack_of, finish_all_packs,
}
use kopia.Content.Seen.{Lawful, Valid, Keeps, PackOf, seen}
use kopia.Content.State.{PackPrefix, PendingPack, Environment, Manager, update, set_pending}
use kopia.Content.Storing.{write_pack-Gone}
use kopia.Content.Pending.{update-same}

module _ {W E : Type 0} (env : Environment W E) where
  pub Keeps-refl : (s : Manager W) → Valid env s → Keeps env s s
  Keeps-refl s v = record { valid = v; same = λ id. refl; count = refl }

  pub Keeps-trans : (s t u : Manager W) → Keeps env s t → Keeps env t u → Keeps env s u
  Keeps-trans s t u a b = record {
    valid = b.valid;
    same = λ id. b.same id ∙ a.same id;
    count = b.count ∙ a.count;
  }

  -- fields that say nothing of contents
  abbrev pub touch : Manager W → ℕ → Bool → ℕ → Manager W
  touch s r f a = record s { revision = r; flushing = f; flush_pack_indexes_after = a }

  pub touch-Keeps :
      (s : Manager W) (r : ℕ) (f : Bool) (a : ℕ) → Valid env s → Keeps env s (touch s r f a)
  unfolding seen
  touch-Keeps s r f a v = record {
    valid = record {
      writing = v.writing;
      failed = v.failed;
      packs = v.packs;
      newer_built = v.newer_built;
      newer_pending = v.newer_pending;
      newer_committed = v.newer_committed;
    };
    same = λ id. refl;
    count = refl;
  }

  pub same_pending :
      (s : Manager W) (k : PackPrefix) (p : Option PendingPack)
      → s.pending_packs k ≡ p
      → set_pending s k p ≡ s
  same_pending s k p e = ap (λ f. with_pending s f) (update-same s.pending_packs k p e)
    where
      with_pending : Manager W → (PackPrefix → Option PendingPack) → Manager W
      with_pending s f = record s { pending_packs = f }

  -- nothing is pending
  abbrev pub Finished : Manager W → Unit {0} → Manager W → Type 0
  Finished s u t = Keeps env s t × ((k : PackPrefix) → t.pending_packs k ≡ none)

  module _ (Faulty : E → Type 0) (law : Lawful env Faulty) where
    -- no pack of a prefix is left
    abbrev pub Without : Manager W → PackPrefix → Unit {0} → Manager W → Type 0
    Without s k u t = Keeps env s t × (t.pending_packs ≡ update s.pending_packs k none)

    pub finish_pack_of-Without :
        (s : Manager W) (k : PackPrefix) (p : Option PendingPack)
        → s.pending_packs k ≡ p
        → Valid env s
        → Outcome Faulty (Without s k) (finish_pack_of env p s)
    finish_pack_of-Without s k none e v =
        returns tt s (Keeps-refl s v, sym (update-same s.pending_packs k none e))
    finish_pack_of-Without s k (some pp) e v =
        let own : pp.prefix ≡ k = (subst (λ o. PackOf env k o) e (v.packs k)).0 in
        let same : set_pending s pp.prefix (some pp) ≡ s =
          ap (λ j. set_pending s j (some pp)) own ∙ same_pending s k (some pp) e in
        Outcome-imp Faulty
          (λ u t g. (
            subst (λ x. Keeps env x t) same g.0,
            g.1 ∙ ap (λ j. update s.pending_packs j none) own,
          ))
          (write_pack-Gone env Faulty law s pp (subst (λ t. Valid env t) (sym same) v))

    finish_prefix-Without :
        (s : Manager W) (k : PackPrefix)
        → Valid env s
        → Outcome Faulty (Without s k) (finish_prefix env k s)
    finish_prefix-Without s k v = finish_pack_of-Without s k (s.pending_packs k) refl v

    pub both_gone :
        (f g h : PackPrefix → Option PendingPack) (k : PackPrefix)
        → g ≡ update f PackPrefix.regular none
        → h ≡ update g PackPrefix.special none
        → h k ≡ none
    both_gone f g h PackPrefix.regular e d =
        ap (λ x. x PackPrefix.regular) (d ∙ ap (λ x. update x PackPrefix.special none) e)
    both_gone f g h PackPrefix.special e d = ap (λ x. x PackPrefix.special) d

    pub finish_all_packs-Finished :
        (s : Manager W) → Valid env s → Outcome Faulty (Finished s) (finish_all_packs env s)
    unfolding finish_all_packs
    finish_all_packs-Finished s v =
        Outcome-bind Faulty (finish_prefix-Without s PackPrefix.regular v) (λ u t a.
          Outcome-imp Faulty
            (λ u' t' b. (
              Keeps-trans s t t' a.0 b.0,
              λ k. both_gone s.pending_packs t.pending_packs t'.pending_packs k a.1 b.1,
            ))
            (finish_prefix-Without t PackPrefix.special a.0.valid))

    pub retry_failed_packs-skip :
        (s : Manager W) → Valid env s → retry_failed_packs env s ≡ (ok tt, s)
    unfolding retry_failed_packs write_packs
    retry_failed_packs-skip s v = ap (λ ps. write_packs env ps s) v.failed
