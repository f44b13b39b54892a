-- ===== src/Content/Data/Reading.antt =====
-- GetContent of repo/content/content_manager.go gives the bytes that are held.
use kopia.Prelude.{
  same_some, ℕ, ◌+◌, ◌≤◌, length, ◌≡◌, refl, sym, ap, ◌∙◌, inl, inr, List, Option, none, some,
  Result, ok, err, arith, Bool-cases, Option-cases, bytes_equal,
}
use kopia.Content.Action.{value_of, bind, Outcome, returns, fails}
use kopia.Content.Data.{Storage, Readable, Decodes, Holds, region, source}
use kopia.Content.Finishing.{two_prefixes}
use kopia.Content.Looking.{not_there}
use kopia.Content.Reading.{get_content_info, get_content_data, found_or_committed}
use kopia.Content.Seen.{Lawful, Valid, PackOf, committed, seen}
use kopia.Content.State.{
  PackPrefix, PendingPack, Environment, Manager, in_pack, in_packs, or_else, with_pack,
  get_overlay_content_info, pack_prefix_for_content_id,
}
use kopia.Index.Builder.{lookup_info}
use kopia.Index.ContentId.{ContentId}
use kopia.Index.Info.{Info}

module _ {W E : Type 0} (env : Environment W E) (blob : W → List ℕ → Option (List ℕ)) where
  -- the content is found in its own pack, or in the index that is built
  own_pair :
      (k : PackPrefix) (f : PackPrefix → Option PendingPack) (id : ContentId)
      (c : Option (Option PendingPack × Info))
      → ((j : PackPrefix) → PackOf env j (f j))
      → pack_prefix_for_content_id id ≡ k
      → or_else
          (with_pack (f PackPrefix.regular) (in_pack (f PackPrefix.regular) id))
          (or_else (with_pack (f PackPrefix.special) (in_pack (f PackPrefix.special) id)) c)
        ≡ or_else (with_pack (f k) (in_pack (f k) id)) c
  own_pair PackPrefix.regular f id c p e =
      ap
        (λ o.
          or_else (with_pack (f PackPrefix.regular) (in_pack (f PackPrefix.regular) id))
            (or_else (with_pack (f PackPrefix.special) o) c))
        (not_there env PackPrefix.special (f PackPrefix.special) id (p PackPrefix.special)
          (λ d. two_prefixes (sym e ∙ d)))
  own_pair PackPrefix.special f id c p e =
      ap
        (λ o.
          or_else (with_pack (f PackPrefix.regular) o)
            (or_else (with_pack (f PackPrefix.special) (in_pack (f PackPrefix.special) id)) c))
        (not_there env PackPrefix.regular (f PackPrefix.regular) id (p PackPrefix.regular)
          (λ d. two_prefixes (sym d ∙ e)))

  abbrev found_in :
      Option PendingPack → Option Info → ContentId → Option (Option PendingPack × Info)
  found_in p built id = or_else (with_pack p (in_pack p id)) (with_pack none built)

  overlay_pair :
      (s : Manager W) (id : ContentId)
      → Valid env s
      → get_overlay_content_info s id
        ≡ found_in
            (s.pending_packs (pack_prefix_for_content_id id))
            (lookup_info s.pack_index_builder id)
            id
  unfolding get_overlay_content_info in_packs
  overlay_pair s id v =
      let written : in_packs s.writing_packs id ≡ none = ap (λ ps. in_packs ps id) v.writing in
      rw written (
        own_pair (pack_prefix_for_content_id id) s.pending_packs id
          (with_pack none (lookup_info s.pack_index_builder id)) v.packs refl)

  module _ (Faulty : E → Type 0) (law : Lawful env Faulty) (store : Storage env blob)
      (readable : Readable env blob Faulty) (refreshes : (w : W) → (env.refresh w).0 ≡ none) where
    -- the content is found, and a read gives the bytes or an error of the surroundings
    abbrev pub Reads :
        Manager W → List ℕ → Result E (Option PendingPack × Info) × Manager W → Type 0
    Reads s b x =
        (found : Option PendingPack × Info) × (t : Manager W) × ((x ≡ (ok found, t))
          × Outcome Faulty (λ y u. (y ≡ b) × (u ≡ t)) (get_content_data env found.0 found.1 t))

    decoded :
        (r : Result E (List ℕ)) (i : Info) (s : Manager W) (b : List ℕ)
        → Decodes env blob Faulty i b r
        → Outcome Faulty
            (λ y u. (y ≡ b) × (u ≡ s))
            (bind (r, s) λ payload t. (env.decode payload i, t))
    decoded (ok payload) i s b h = rw h (returns b s (refl, refl))
    decoded (err e) i s b h = fails e s h

    -- the bytes of a content lie in some bytes, and are decoded to b
    abbrev Lies : Info → List ℕ → List ℕ → Type 0
    Lies i d b = (i.pack_offset + i.packed_length ≤ length d) × (env.decode (region i d) i ≡ ok b)

    from_blob :
        (i : Info) (s : Manager W) (d b : List ℕ)
        → blob s.world i.pack_blob_id ≡ some d
        → Lies i d b
        → Outcome Faulty (λ y u. (y ≡ b) × (u ≡ s)) (get_content_data env none i s)
    from_blob i s d b e h =
        decoded (env.read_content i s.world) i s b (readable.reads i s.world d b e h.0 h.1)

    from_pack :
        (pp : PendingPack) (id : ContentId) (i : Info) (s : Manager W) (d b : List ℕ)
        → lookup_info pp.current_pack_items id ≡ some i
        → source env blob (some pp) s.world id i.pack_blob_id ≡ some d
        → Lies i d b
        → Outcome Faulty (λ y u. (y ≡ b) × (u ≡ s)) (get_content_data env (some pp) i s)
    from_pack pp id i s d b l e h = elim (Bool-cases (bytes_equal pp.pack_blob_id i.pack_blob_id)) [
      | inl g ↦
          let same = same_some pp.current_pack_data d (rw (l, g) at e) in
          let own : env.decode (region i pp.current_pack_data) i ≡ ok b = rw same h.1 in
          rw g (decoded (ok (region i pp.current_pack_data)) i s b own)
      | inr g ↦
          let read = readable.reads i s.world d b (rw (l, g) at e) h.0 h.1 in
          rw g (decoded (env.read_content i s.world) i s b read)
    ]

    value : (r : Result E Info) (i : Info) → value_of r ≡ some i → r ≡ ok i
    value (ok j) i e = ap ok (same_some j i e)
    value (err x) i e = absurd (ground (arith, e))

    -- in the index that is built, or committed
    outside_packs :
        (s : Manager W) (id : ContentId) (i : Info) (d b : List ℕ) (built : Option Info)
        → or_else built (committed env s.world id) ≡ some i
        → blob s.world i.pack_blob_id ≡ some d
        → Lies i d b
        → Reads s b (found_or_committed env id (with_pack none built) s)
    outside_packs s id i d b (some j) e g h =
        ((none, i), s, (ap (λ x. (ok (none, x), s)) (same_some j i e), from_blob i s d b g h))
    outside_packs s id i d b none e g h =
        let w = (env.refresh s.world).1 in
        let there = value (env.get_committed w id) i (law.refresh_keeps s.world id ∙ e) in
        let t = record s { world = w } in
        (
          (none, i),
          t,
          (
            rw (refreshes s.world, there) refl,
            from_blob i t d b (store.refresh_same s.world i.pack_blob_id ∙ g) h,
          ),
        )

    in_place :
        (s : Manager W) (id : ContentId) (i : Info) (d b : List ℕ) (p : Option PendingPack)
        (built : Option Info)
        → or_else (in_pack p id) (or_else built (committed env s.world id)) ≡ some i
        → source env blob p s.world id i.pack_blob_id ≡ some d
        → Lies i d b
        → Reads s b (found_or_committed env id (found_in p built id) s)
    in_place s id i d b none built e g h = outside_packs s id i d b built e g h
    in_place s id i d b (some pp) built e g h =
        elim (Option-cases (lookup_info pp.current_pack_items id)) [
          | inl l ↦ rw l (outside_packs s id i d b built (rw l at e) (rw l at g) h)
          | inr (j, l) ↦
              let one : j ≡ i = same_some j i (rw l at e) in
              let found = l ∙ ap some one in
              rw found ((some pp, i), s, (refl, from_pack pp id i s d b found g h))
        ]

    pub info-Reads :
        (s : Manager W) (id : ContentId) (bytes : List ℕ)
        → Valid env s
        → Holds env blob s id bytes
        → Reads s bytes (get_content_info env id s)
    unfolding get_content_info seen
    info-Reads s id bytes v h = rw (overlay_pair s id v) (
        in_place s id h.info h.data_bytes bytes (s.pending_packs (pack_prefix_for_content_id id))
          (lookup_info s.pack_index_builder id) h.there h.from (h.inside, h.decoded))
