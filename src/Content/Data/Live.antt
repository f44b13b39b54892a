-- ===== src/Content/Data/Live.antt =====
-- WriteContent of repo/content/content_manager.go: the bytes are held, and those of all other contents stay.
use mathlib.Core.Path.{subst}
use kopia.Prelude.{
  ℕ, ◌+◌, ◌-◌, ◌<◌, ◌≤◌, ◌%◌, ◌^◌, ◌≡◌, refl, sym, ap, ◌∙◌, Bool, false, List, ◌++◌, Option, ok,
  length, arith, length-append, take, drop, take-append_length, drop-append_length, append_assoc,
}
use kopia.Content.Action.{Outcome, Outcome-imp, Outcome-bind}
use kopia.Content.Adding.{seconds_of, write_time-Newer}
use kopia.Content.Data.{Storage, Sound, Small, PendingSmall, Preserves, Holds, region}
use kopia.Content.Data.Preserving.{Preserves-trans, frame-Preserves, Holds-Moves, Holds-Preserves}
use kopia.Content.Data.Adding.{store_pack-Added}
use kopia.Content.Data.Starting.{get_or_create-Preserves}
use kopia.Content.Flushing.{touch-Keeps, retry_failed_packs-skip}
use kopia.Content.Operations.{add_encoded, new_info, unix}
use kopia.Content.Packs.{get_or_create_pending_pack_info}
use kopia.Content.Putting.{Newest-seen}
use kopia.Content.Maps.{Newer}
use kopia.Content.Seen.{Lawful, Valid, seen}
use kopia.Content.State.{
  PendingPack, MutableParameters, Environment, Manager, pack_prefix_for_content_id,
  content_write_time,
}
use kopia.Index.Builder.{same_id}
use kopia.Index.ContentId.{ContentId}

-- the bytes that are added to a pack are those of the region
packed-region :
    (mp : MutableParameters) (id : ContentId) (size : ℕ) (b : Bool) (previous : Option ℕ)
    (comp t : ℕ) (pp : PendingPack) (packed x : List ℕ)
    → length pp.current_pack_data < 2 ^ 31
    → length packed < 2 ^ 31
    → region
        (new_info mp id size b previous comp t pp packed)
        ((pp.current_pack_data ++ packed) ++ x)
      ≡ packed
packed-region mp id size b previous comp t pp packed x h k =
    let d = pp.current_pack_data in
    let all = length-append d packed in
    let offset : length d % 2 ^ 32 ≡ length d = omega (arith, h) in
    let size_ : (length (d ++ packed) % 2 ^ 32 + 2 ^ 32 - length d % 2 ^ 32) % 2 ^ 32
        ≡ length packed =
      omega (arith, h, k, all) in
    ap (λ n. take n (drop (length d % 2 ^ 32) ((d ++ packed) ++ x))) size_
    ∙ (ap (λ n. take (length packed) (drop n ((d ++ packed) ++ x))) offset
        ∙ (ap (λ y. take (length packed) (drop (length d) y)) (append_assoc d packed x)
            ∙ (ap (take (length packed)) (drop-append_length d (packed ++ x))
                ∙ take-append_length packed x)))

packed-inside :
    (mp : MutableParameters) (id : ContentId) (size : ℕ) (b : Bool) (previous : Option ℕ)
    (comp t : ℕ) (pp : PendingPack) (packed x : List ℕ)
    → length pp.current_pack_data < 2 ^ 31
    → length packed < 2 ^ 31
    → (new_info mp id size b previous comp t pp packed).pack_offset
        + (new_info mp id size b previous comp t pp packed).packed_length
      ≤ length ((pp.current_pack_data ++ packed) ++ x)
packed-inside mp id size b previous comp t pp packed x h k = omega (
  arith,
  h,
  k,
  length-append pp.current_pack_data packed,
  length-append (pp.current_pack_data ++ packed) x,
)

module _ {W E : Type 0} (env : Environment W E) (blob : W → List ℕ → Option (List ℕ)) where
  -- The bytes of a content are held, and those of others that were.
  pub record Wrote (s : Manager W) (id : ContentId) (bytes : List ℕ) (t : Manager W) : Type 0 where
    pub valid : Valid env t
    pub sound : Sound env blob t
    pub small : Small t
    pub holds : Holds env blob t id bytes
    pub others :
        (j : ContentId) (b : List ℕ)
        → same_id id j ≡ false
        → Holds env blob s j b
        → Holds env blob t j b

  pub Wrote-before :
      (s t u : Manager W) (id : ContentId) (bytes : List ℕ)
      → Preserves env blob s t
      → Wrote t id bytes u
      → Wrote s id bytes u
  Wrote-before s t u id bytes p w = record {
    valid = w.valid;
    sound = w.sound;
    small = w.small;
    holds = w.holds;
    others = λ j b ne h. w.others j b ne (Holds-Preserves env blob s t j b p h);
  }

  module _ (Faulty : E → Type 0) (law : Lawful env Faulty) (store : Storage env blob) where
    pub add_encoded-Wrote :
        (mp : MutableParameters) (id : ContentId) (bytes : List ℕ) (is_deleted : Bool) (asked : ℕ)
        (previous : Option ℕ) (encoded : List ℕ × ℕ) (s : Manager W)
        → mp.max_pack_size ≤ 2 ^ 31
        → env.encode mp bytes id asked ≡ ok encoded
        → length encoded.0 < 2 ^ 31
        → Valid env s
        → Sound env blob s
        → Small s
        → seconds_of (seen env s id) ≡ previous
        → Outcome Faulty
            (λ u t. Wrote s id bytes t)
            (add_encoded env mp id (length bytes) is_deleted previous encoded s)
    unfolding get_or_create_pending_pack_info
    add_encoded-Wrote mp id bytes is_deleted asked previous (packed, comp) s max enc size v p m e =
        let counted = touch-Keeps env s (s.revision + 1) s.flushing s.flush_pack_indexes_after v in
        let s1 = record s { revision = s.revision + 1 } in
        let first = frame-Preserves env blob s s1 counted refl (λ n. refl) p m in
        let k = pack_prefix_for_content_id id in
        rw (retry_failed_packs-skip env Faulty law s1 counted.valid) (
          Outcome-bind Faulty
            (get_or_create-Preserves env blob Faulty law store s1 k (s1.pending_packs k)
              counted.valid first.sound first.small refl)
            (λ pp t has.
              let kept = Preserves-trans env blob s s1 t first has.1 in
              let small : length pp.current_pack_data < 2 ^ 31 =
                subst (λ o. PendingSmall o) has.0.1 (kept.small k) in
              let now = unix (env.time_now t.world) in
              let i = new_info mp id (length bytes) is_deleted previous comp now pp packed in
              let newer : Newer i (seen env t id) =
                write_time-Newer env Faulty law (seen env t id) i now (
                  ap (content_write_time now) (sym e ∙ ap seconds_of (sym (kept.keeps.same id)))) in
              Outcome-imp Faulty
                (λ u t1 a. Wrote-before s t t1 id bytes kept (record {
                  valid = a.put.valid;
                  sound = a.sound;
                  small = a.small;
                  holds = record {
                    info = i;
                    data_bytes = (pp.current_pack_data ++ packed) ++ a.own.0;
                    there = a.put.there;
                    from = a.own.1;
                    inside =
                        packed-inside mp id (length bytes) is_deleted previous comp now pp packed
                          a.own.0 small size;
                    decoded =
                        ap (λ y. env.decode y i)
                          (packed-region mp id (length bytes) is_deleted previous comp now pp packed
                            a.own.0 small size)
                        ∙ store.decodes mp bytes id asked (packed, comp) i enc refl refl refl refl;
                  };
                  others = λ j b ne h.
                      Holds-Moves env blob t t1 j b (a.put.others j ne) (a.others j ne) h;
                }))
                (store_pack-Added env blob Faulty law store mp t pp i packed max kept.keeps.valid
                  kept.sound kept.small has.0.1 refl
                  (Newest-seen env t id i kept.keeps.valid newer))))
