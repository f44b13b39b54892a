-- ===== src/Content/Data/Storing.antt =====
-- WriteContent of repo/content/content_manager.go holds the bytes of the content.
use kopia.Prelude.{
  ℕ, ◌<◌, length, ◌≤◌, ◌^◌, ◌≡◌, ◌⊎◌, refl, ap, ◌∙◌, Bool, List, Option, none, some, ok,
}
use kopia.Content.Action.{Outcome, Outcome-imp, Outcome-bind, Outcome-when}
use kopia.Content.Adding.{seconds_of}
use kopia.Content.Committing.{raised}
use kopia.Content.Data.{Storage, Sound, Small, Holds}
use kopia.Content.Data.Preserving.{Preserves-trans, frame-Preserves}
use kopia.Content.Data.Flushing.{Framed, bind-Framed, maybe_flush-Preserves}
use kopia.Content.Data.Live.{Wrote, Wrote-before, add_encoded-Wrote}
use kopia.Content.Live.{lost_race-none}
use kopia.Content.Operations.{add_to_pack, lost_race, live}
use kopia.Content.Packs.{on_world}
use kopia.Content.Reading.{get_content_info, found_or_committed}
use kopia.Content.Seen.{Lawful, Valid, seen}
use kopia.Content.State.{
  PendingPack, MutableParameters, Environment, Manager, get_overlay_content_info,
}
use kopia.Index.ContentId.{ContentId}
use kopia.Index.Info.{Info}

module _ {W E : Type 0} (env : Environment W E) (blob : W → List ℕ → Option (List ℕ)) where
  -- a content is to be written, or its bytes are held
  abbrev pub Fits : Manager W → ContentId → List ℕ → Type 0
  Fits s id bytes = (live (seen env s id) ≡ none) ⊎ Holds env blob s id bytes

module _ {W E : Type 0} (env : Environment W E) (blob : W → List ℕ → Option (List ℕ))
    (Faulty : E → Type 0) (law : Lawful env Faulty) (store : Storage env blob)
    (refreshes : (w : W) → (env.refresh w).0 ≡ none) where
  found-Framed :
      (s : Manager W) (id : ContentId) (o : Option (Option PendingPack × Info))
      → Framed env blob s (found_or_committed env id o s).1
  found-Framed s id (some found) = (refl, λ n. refl)
  found-Framed s id none =
      bind-Framed env blob s (on_world env.refresh s) _ (refl, store.refresh_same s.world)
        (λ u t.
          bind-Framed env blob t (env.get_committed t.world id, t) _ (refl, λ n. refl)
            (λ i t1. (refl, λ n. refl)))

  -- a lookup changes nothing of what is pending or stored
  pub get_content_info-Framed :
      (s : Manager W) (id : ContentId) → Framed env blob s (get_content_info env id s).1
  unfolding get_content_info
  get_content_info-Framed s id = found-Framed s id (get_overlay_content_info s id)

  lost_race-Framed :
      (s : Manager W) (id : ContentId) (previous : Option ℕ)
      → Framed env blob s (lost_race env id previous s).1
  lost_race-Framed s id (some t) = (refl, λ n. refl)
  lost_race-Framed s id none = get_content_info-Framed s id

  pub add_to_pack-Wrote :
      (mp : MutableParameters) (id : ContentId) (bytes : List ℕ) (is_deleted : Bool) (comp : ℕ)
      (previous : Option ℕ) (s : Manager W)
      → mp.max_pack_size ≤ 2 ^ 31
      → Valid env s
      → Sound env blob s
      → Small s
      → seconds_of (seen env s id) ≡ previous
      → ((p : List ℕ × ℕ) → env.encode mp bytes id comp ≡ ok p → length p.0 < 2 ^ 31)
      → Outcome Faulty
          (λ u t. Wrote env blob s id bytes t)
          (add_to_pack env mp id bytes is_deleted comp previous s)
  unfolding add_to_pack
  add_to_pack-Wrote mp id bytes is_deleted comp previous s max v p m e size =
      Outcome-bind Faulty (maybe_flush-Preserves env blob Faulty law store s v p m) (λ u t k.
        Outcome-bind Faulty
          (raised env Faulty law (env.encode mp bytes id comp) t
            (law.encode_fails mp bytes id comp))
          (λ encoded t1 same. rw (same.0) (
            Outcome-bind Faulty
              (Outcome-when Faulty
                (lost_race-none env Faulty law refreshes id previous t k.keeps.valid
                  (ap seconds_of (k.keeps.same id) ∙ e))
                (λ lost d l.
                  let f = lost_race-Framed t id previous in
                  frame-Preserves env blob t _ l.0 f.0 f.1 k.sound k.small))
              (λ lost t2 l. rw (l.0.1) (
                let kept = Preserves-trans env blob s t t2 k l.1 in
                Outcome-imp Faulty (λ u t3 w. Wrote-before env blob s t2 t3 id bytes kept w)
                  (add_encoded-Wrote env blob Faulty law store mp id bytes is_deleted comp previous
                    encoded t2 max same.1 (size encoded same.1) kept.keeps.valid kept.sound
                    kept.small (ap seconds_of (kept.keeps.same id) ∙ e)))))))
