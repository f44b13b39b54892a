-- ===== src/Content/Data/Packs.antt =====
-- A pack that is written without an error is a blob with all its data.
use mathlib.Core.Path.{subst}
use kopia.Prelude.{
  same_some, err_not_ok, ℕ, ◌<◌, ◌≡◌, refl, sym, ap, ◌∙◌, inl, inr, Bool, true, false, not, List,
  [], ◌∷◌, ◌++◌, Option, none, some, ok, if◌then◌else◌, length, bytes_equal, bytes_equal_refl,
  arith, Bool-cases, ◌==◌, length-append, append-nil,
}
use kopia.Content.Data.{Storage, PackSound}
use kopia.Content.Packs.{
  Written, has_content, prepare_pack_data_content, put_pack, put_if_prepared,
  prepare_and_write_pack_internal, keep_result, process_write_pack_result,
  write_pack_and_add_to_index, start_writing,
}
use kopia.Content.State.{PackPrefix, PendingPack, Environment, Manager}
use kopia.Content.Maps.{NoDup}
use kopia.Index.Builder.{lookup_info, add_all, same_id}
use kopia.Index.ContentId.{ContentId}
use kopia.Index.Info.{Info}

has_content-found :
    (is : List Info) (n : List ℕ) (id : ContentId) (i : Info)
    → lookup_info is id ≡ some i
    → i.pack_blob_id ≡ n
    → has_content n is ≡ true
unfolding lookup_info has_content
has_content-found [] n id i e h = absurd (ground (arith, e))
has_content-found (j ∷ is) n id i e h = elim (Bool-cases (same_id j.content_id id)) [
  | inl d ↦ let one : j ≡ i = same_some j i (rw d at e) in rw (one, h, bytes_equal_refl n) refl
  | inr d ↦ rw (has_content-found is n id i (rw d at e) h) (both (bytes_equal j.pack_blob_id n))
]
  where
    both : (b : Bool) → (if b then true else true) ≡ true
    both true = refl
    both false = refl

module _ {W E : Type 0} (env : Environment W E) (blob : W → List ℕ → Option (List ℕ)) where
  -- the blob of a pack that has bytes of its contents
  pub record Blob (pp : PendingPack) (w v : W) : Type 0 where
    pub others : (m : List ℕ) → bytes_equal pp.pack_blob_id m ≡ false → blob v m ≡ blob w m
    pub stored :
        (id : ContentId) (i : Info)
        → lookup_info pp.current_pack_items id ≡ some i
        → i.pack_blob_id ≡ pp.pack_blob_id
        → (x : List ℕ) × (blob v pp.pack_blob_id ≡ some (pp.current_pack_data ++ x))

  module _ (store : Storage env blob) where
    -- the data of a prepared pack are put, or there are none
    put_others :
        (w : Written E) (pp : PendingPack) (s : Manager W) (m : List ℕ)
        → w.pack.pack_blob_id ≡ pp.pack_blob_id
        → bytes_equal pp.pack_blob_id m ≡ false
        → blob (put_pack env w s).1.world m ≡ blob s.world m
    put_others w pp s m e h = elim (Bool-cases (length w.pack.current_pack_data == 0)) [
      | inl d ↦ rw d refl
      | inr d ↦ rw d (
          store.put_others w.pack.pack_blob_id w.pack.current_pack_data s.world m
            (ap (λ n. bytes_equal n m) e ∙ h))
    ]

    put_stored :
        (w : Written E) (s : Manager W)
        → 0 < length w.pack.current_pack_data
        → (put_pack env w s).0.error ≡ none
        → blob (put_pack env w s).1.world w.pack.pack_blob_id ≡ some w.pack.current_pack_data
    put_stored w s f e =
        let some_data : (length w.pack.current_pack_data == 0) ≡ false = ground (arith, f) in
        rw some_data
          (store.puts w.pack.pack_blob_id w.pack.current_pack_data s.world (rw some_data at e))

    -- what is prepared: nothing if the pack has none of its contents' bytes, and else all data
    record Ready (pp : PendingPack) (w : Written E) : Type 0 where
      same_name : w.pack.pack_blob_id ≡ pp.pack_blob_id
      all_data :
          (id : ContentId) (i : Info)
          → lookup_info pp.current_pack_items id ≡ some i
          → i.pack_blob_id ≡ pp.pack_blob_id
          → w.error ≡ none
          → (x : List ℕ) × (w.pack.current_pack_data ≡ pp.current_pack_data ++ x)

    either :
        (pp : PendingPack) (b : Bool) (x y : Written E)
        → (b ≡ true → Ready pp x)
        → (b ≡ false → Ready pp y)
        → Ready pp (if b then x else y)
    either pp true x y p q = p refl
    either pp false x y p q = q refl

    refuted : (b : Bool) → b ≡ true → not b ≡ true → ⊥
    refuted b h k = ground (arith, h, k)

    prepare-Ready :
        (pp : PendingPack)
        → NoDup pp.current_pack_items
        → pp.finalized ≡ false
        → Ready pp (prepare_pack_data_content env pp)
    unfolding prepare_pack_data_content
    prepare-Ready pp d closed =
        let items = add_all [] pp.current_pack_items in
        either pp (length items == 0) _ _
          (λ e. record {
            same_name = refl;
            all_data = λ id i f h g. ([], sym (append-nil pp.current_pack_data));
          })
          (λ e.
            either pp (not (has_content pp.pack_blob_id pp.current_pack_items)) _ _
              (λ none_here. record {
                same_name = refl;
                all_data = λ id i f h g. absurd (
                    refuted (has_content pp.pack_blob_id pp.current_pack_items)
                      (has_content-found pp.current_pack_items pp.pack_blob_id id i f h) none_here);
              })
              (λ here.
                either pp pp.finalized _ _
                  (λ f. record {
                    same_name = refl;
                    all_data = λ id i f h g. ([], sym (append-nil pp.current_pack_data));
                  })
                  (λ f. record {
                    same_name = refl;
                    all_data = λ id i f h g. store.finish_appends items pp.current_pack_data g;
                  })))

    put_if_prepared-Blob :
        (pp : PendingPack) (o : Option E) (w : Written E) (s : Manager W)
        → o ≡ w.error
        → 0 < length pp.current_pack_data
        → Ready pp w
        → (put_if_prepared env o w s).0.error ≡ none
        → Blob pp s.world (put_if_prepared env o w s).1.world
    put_if_prepared-Blob pp none w s e f r h = record {
      others = λ m d. put_others w pp s m r.same_name d;
      stored = λ id i g n.
          let whole = r.all_data id i g n (sym e) in
          let full : 0 < length w.pack.current_pack_data =
            subst (λ d. 0 < length d) (sym whole.1)
              (omega (arith, f, length-append pp.current_pack_data whole.0)) in
          (
            whole.0,
            ap (blob (put_pack env w s).1.world) (sym r.same_name)
                ∙ (put_stored w s full h ∙ ap some whole.1),
          );
    }
    put_if_prepared-Blob pp (some x) w s e f r h = absurd (ground (arith, e, h))

    kept :
        (o : Option E) (w : Written E) (s : Manager W) (a : Unit {0}) (P : W → Type 0)
        → (o ≡ none → P s.world)
        → (keep_result env o w s).0 ≡ ok a
        → P (keep_result env o w s).1.world
    kept none w s a P p e = p refl
    kept (some x) w s a P p e = absurd (err_not_ok x a e)

    -- A pending pack that is written without an error is stored.
    pub write_pack-Blob :
        (s : Manager W) (k : PackPrefix) (pp : PendingPack) (a : Unit {0})
        → NoDup pp.current_pack_items
        → PackSound env blob k s.world pp
        → (write_pack_and_add_to_index env pp (start_writing pp s)).0 ≡ ok a
        → Blob pp s.world (write_pack_and_add_to_index env pp (start_writing pp s)).1.world
    unfolding write_pack_and_add_to_index process_write_pack_result prepare_and_write_pack_internal
    write_pack-Blob s k pp a d p e =
        let w = prepare_pack_data_content env pp in
        let r = put_if_prepared env w.error w (start_writing pp s) in
        kept r.0.error r.0 _ a (λ v. Blob pp s.world v)
          (λ h.
            put_if_prepared-Blob pp w.error w (start_writing pp s) refl p.filled
              (prepare-Ready pp d p.not_finalized) h)
          e
