-- ===== src/Content/Live.antt =====
-- WriteContent of repo/content/content_manager.go: the content is seen, and live.
use kopia.Prelude.{
  ℕ, ◌≡◌, refl, sym, ap, ◌∙◌, inl, inr, Bool, false, List, Option, none, some, Result, ok, err,
  arith, Bool-cases, length, map_err,
}
use kopia.Content.Action.{Outcome, returns, Outcome-bind, Outcome-imp}
use kopia.Content.Committing.{raised, maybe_flush-Keeps}
use kopia.Content.Flushing.{Keeps-refl, Keeps-trans, retry_failed_packs-skip}
use kopia.Content.Looking.{info_of, attempt-Looked}
use kopia.Content.Operations.{
  add_to_pack, lost_race, write_unless_live, write_content, id_of, is_found,
}
use kopia.Content.Seen.{MayRaise, Lawful, Valid, Keeps, seen}
use kopia.Content.State.{PendingPack, MutableParameters, Environment, Manager}
use kopia.Index.Builder.{same_id}
use kopia.Index.ContentId.{ContentId, validate_single, id_from_hash, IdError}
use kopia.Index.Info.{Info}
use kopia.Content.Adding.{seconds_of, PutAs, add_encoded-PutAs, PutAs-before}

module _ {W E : Type 0} (env : Environment W E) where
  -- A content is seen that is not deleted, and the others as before.
  pub record Live (s : Manager W) (id : ContentId) (t : Manager W) : Type 0 where
    pub valid : Valid env t
    pub info : Info
    pub there : seen env t id ≡ some info
    pub not_deleted : info.deleted ≡ false
    pub others : (j : ContentId) → same_id id j ≡ false → seen env t j ≡ seen env s j

module _ {W E : Type 0} (env : Environment W E) (Faulty : E → Type 0)
    (law : Lawful env Faulty) where
  module _ (refreshes : (w : W) → (env.refresh w).0 ≡ none) where
    no_info : (o : Option Info) → seconds_of o ≡ none → o ≡ none
    no_info none e = refl
    no_info (some i) e = absurd (ground (arith, e))

    not_found : (o : Option (Option PendingPack × Info)) → info_of o ≡ none → is_found o ≡ false
    not_found none e = refl
    not_found (some x) e = absurd (ground (arith, e))

    -- no content is found that was not seen before
    pub lost_race-none :
        (id : ContentId) (previous : Option ℕ) (s : Manager W)
        → Valid env s
        → seconds_of (seen env s id) ≡ previous
        → Outcome Faulty (λ lost t. Keeps env s t × (lost ≡ false)) (lost_race env id previous s)
    lost_race-none id (some t) s v e = returns false s (Keeps-refl env s v, refl)
    lost_race-none id none s v e =
        Outcome-bind Faulty (attempt-Looked env Faulty law refreshes s id v) (λ found t l.
          returns (is_found found) t (l.0, not_found found (l.1 ∙ no_info (seen env s id) e)))

    -- The content is added, if what is seen of it is as old as is said.
    pub add_to_pack-PutAs :
        (mp : MutableParameters) (id : ContentId) (bytes : List ℕ) (is_deleted : Bool) (comp : ℕ)
        (previous : Option ℕ) (s : Manager W)
        → Valid env s
        → seconds_of (seen env s id) ≡ previous
        → Outcome Faulty
            (PutAs env s id is_deleted)
            (add_to_pack env mp id bytes is_deleted comp previous s)
    unfolding add_to_pack
    add_to_pack-PutAs mp id bytes is_deleted comp previous s v e =
        Outcome-bind Faulty (maybe_flush-Keeps env Faulty law s v) (λ u t k.
          Outcome-bind Faulty
            (raised env Faulty law (env.encode mp bytes id comp) t
              (law.encode_fails mp bytes id comp))
            (λ encoded t1 same. rw (same.0) (
              Outcome-bind Faulty
                (lost_race-none id previous t k.valid (ap seconds_of (k.same id) ∙ e))
                (λ lost t2 l. rw (l.1) (
                  let kept = Keeps-trans env s t t2 k l.0 in
                  Outcome-imp Faulty
                    (λ u t3 p. PutAs-before env Faulty law s t2 id is_deleted u t3 kept p)
                    (add_encoded-PutAs env Faulty law mp id (length bytes) is_deleted previous
                      encoded t2 kept.valid (ap seconds_of (kept.same id) ∙ e)))))))

    pub PutAs-Live :
        (s : Manager W) (id : ContentId) (u : Unit {0}) (t : Manager W)
        → PutAs env s id false u t
        → Live env s id t
    PutAs-Live s id u t (i, (own, alive, newer), p) = record {
      valid = p.valid;
      info = i;
      there = ap (seen env t) (sym own) ∙ p.there;
      not_deleted = alive;
      others = λ j h. p.others j (ap (λ d. same_id d j) own ∙ h);
    }

    pub Live-before :
        (s t u : Manager W) (id : ContentId) → Keeps env s t → Live env t id u → Live env s id u
    Live-before s t u id k l = record {
      valid = l.valid;
      info = l.info;
      there = l.there;
      not_deleted = l.not_deleted;
      others = λ j h. l.others j h ∙ k.same j;
    }

    write_unless_live-Live :
        (mp : MutableParameters) (id : ContentId) (bytes : List ℕ) (comp : ℕ)
        (o : Option (Option PendingPack × Info)) (s : Manager W)
        → Valid env s
        → info_of o ≡ seen env s id
        → Outcome Faulty (λ u t. Live env s id t) (write_unless_live env mp id bytes comp o s)
    write_unless_live-Live mp id bytes comp none s v e =
        Outcome-imp Faulty (PutAs-Live s id)
          (add_to_pack-PutAs mp id bytes false comp none s v (ap seconds_of (sym e)))
    write_unless_live-Live mp id bytes comp (some (pp, i)) s v e = elim (Bool-cases i.deleted) [
      | inl d ↦ rw d (
          Outcome-imp Faulty (PutAs-Live s id) (
            add_to_pack-PutAs mp id bytes false comp (some i.timestamp_seconds) s v
              (ap seconds_of (sym e))))
      | inr d ↦ rw d (
          returns tt s
            (record { valid = v; info = i; there = sym e; not_deleted = d; others = λ j h. refl }))
    ]

    pub map_err-MayRaise :
        {A : Type 0} (r : Result IdError A) → MayRaise Faulty (map_err env.invalid_id r)
    map_err-MayRaise (ok a) = tt
    map_err-MayRaise (err e) = law.id_fails e

    -- In a valid state, if no refresh of the indexes fails, WriteContent ends with the ID of the
    -- bytes, or an error of the surroundings. Without an error the content is seen, and is not
    -- deleted, also if it had been; every other content is seen as before, and the state is valid.
    pub write_content-Live :
        (s : Manager W) (bytes prefix : List ℕ) (comp : ℕ)
        → Valid env s
        → Outcome Faulty
            (λ id t. (id_of env prefix bytes ≡ ok id) × Live env s id t)
            (write_content env bytes prefix comp s)
    unfolding write_content
    write_content-Live s bytes prefix comp v =
        Outcome-bind Faulty
          (raised env Faulty law (env.mutable_parameters s.world) s (law.parameters_fail s.world))
          (λ mp t same.
            rw (same.0, retry_failed_packs-skip env Faulty law s v)
              (Outcome-bind Faulty
                (raised env Faulty law (map_err env.invalid_id (validate_single prefix)) s
                  (map_err-MayRaise (validate_single prefix)))
                (λ u t1 same1. rw (same1.0) (
                  Outcome-bind Faulty
                    (raised env Faulty law (id_of env prefix bytes) s
                      (map_err-MayRaise (id_from_hash prefix (env.hash_data bytes))))
                    (λ id t2 same2. rw (same2.0) (
                      Outcome-bind Faulty (attempt-Looked env Faulty law refreshes s id v)
                        (λ found t3 l.
                          Outcome-bind Faulty
                            (write_unless_live-Live mp id bytes comp found t3 l.0.valid
                              (l.1 ∙ sym (l.0.same id)))
                            (λ u t4 live.
                              returns id t4 (same2.1, Live-before s t3 t4 id l.0 live)))))))))
