-- ===== src/Content/Data/Writing.antt =====
-- Writing a pack of repo/content/content_manager.go preserves the bytes of all contents.
use mathlib.Core.Path.{subst}
use kopia.Prelude.{
  same_some, ℕ, ◌≡◌, refl, sym, ap, ◌∙◌, inl, inr, false, ◌&&◌, List, [], ◌++◌, Option, none, some,
  ok, take, bytes_equal, bytes_equal_iff, arith, Bool-cases, Option-cases, append-nil,
}
use kopia.Content.Data.{
  Storage, PackSound, PendingSound, Sound, source, Preserves, letter, Small, PendingSmall,
}
use kopia.Content.Data.Packs.{Blob, write_pack-Blob}
use kopia.Content.Finishing.{two_prefixes}
use kopia.Content.Operations.{is_found}
use kopia.Content.Packs.{write_pack_and_add_to_index, start_writing}
use kopia.Content.Seen.{Lawful, Valid, PackOf, seen, committed}
use kopia.Content.State.{
  PackPrefix, PendingPack, Environment, Manager, update, set_pending, in_pack, or_else,
  pack_prefix_for_content_id,
}
use kopia.Content.Storing.{Gone}
use kopia.Index.Builder.{lookup_info}
use kopia.Index.ContentId.{ContentId}
use kopia.Index.Info.{Info}

-- names that begin with different letters
other_letter :
    (a b : List ℕ) (k j : PackPrefix)
    → take 1 a ≡ letter k
    → take 1 b ≡ letter j
    → (k ≡ j → ⊥)
    → bytes_equal a b ≡ false
other_letter a b k j e d ne = elim (Bool-cases (bytes_equal a b)) [
  | inr h ↦ h
  | inl h ↦ absurd (ne (same k j (sym e ∙ (ap (take 1) ((bytes_equal_iff a b).0 h) ∙ d))))
]
  where
    same : (k j : PackPrefix) → letter k ≡ letter j → k ≡ j
    same PackPrefix.regular PackPrefix.regular e = refl
    same PackPrefix.special PackPrefix.special e = refl
    same PackPrefix.regular PackPrefix.special e = absurd (ground (arith, e))
    same PackPrefix.special PackPrefix.regular e = absurd (ground (arith, e))

module _ {W E : Type 0} (env : Environment W E) (blob : W → List ℕ → Option (List ℕ)) where
  -- a pack is written
  module _ (pp : PendingPack) (w v : W) (fresh : blob w pp.pack_blob_id ≡ none)
      (put : Blob env blob pp w v) where
    blob_stays : (n d : List ℕ) → blob w n ≡ some d → blob v n ≡ some d
    blob_stays n d e = elim (Bool-cases (bytes_equal pp.pack_blob_id n)) [
      | inl h ↦
          let none_there : blob w n ≡ none =
            ap (blob w) (sym ((bytes_equal_iff pp.pack_blob_id n).0 h)) ∙ fresh in
          absurd (ground (arith, sym none_there ∙ e))
      | inr h ↦ put.others n h ∙ e
    ]

    source_stays :
        (o : Option PendingPack) (id : ContentId) (n d : List ℕ)
        → source env blob o w id n ≡ some d
        → source env blob o v id n ≡ some d
    source_stays none id n d e = blob_stays n d e
    source_stays (some q) id n d e =
        elim (Bool-cases
          (is_found (lookup_info q.current_pack_items id) && bytes_equal q.pack_blob_id n)) [
            | inl h ↦ rw h (rw h at e)
            | inr h ↦ rw h (blob_stays n d (rw h at e))
          ]

    -- the content of the pack
    moved :
        (id : ContentId) (i : Info) (d : List ℕ) (rest : Option Info)
        → or_else (lookup_info pp.current_pack_items id) rest ≡ some i
        → source env blob (some pp) w id i.pack_blob_id ≡ some d
        → (x : List ℕ) × (blob v i.pack_blob_id ≡ some (d ++ x))
    moved id i d rest s e = elim (Option-cases (lookup_info pp.current_pack_items id)) [
      | inl h ↦ ([], blob_stays i.pack_blob_id d (rw h at e) ∙ ap some (sym (append-nil d)))
      | inr (j, h) ↦
          let one : j ≡ i = same_some j i (rw h at s) in
          elim (Bool-cases (bytes_equal pp.pack_blob_id i.pack_blob_id)) [
            | inl g ↦
                let name = (bytes_equal_iff pp.pack_blob_id i.pack_blob_id).0 g in
                let whole = put.stored id i (h ∙ ap some one) (sym name) in
                let data_is : pp.current_pack_data ≡ d =
                  same_some pp.current_pack_data d (rw (h, g) at e) in
                (
                  whole.0,
                  ap (blob v) (sym name) ∙ (whole.1 ∙ ap (λ y. some (y ++ whole.0)) data_is),
                )
            | inr g ↦
                ([], blob_stays i.pack_blob_id d (rw (h, g) at e) ∙ ap some (sym (append-nil d)))
          ]
    ]

    moved_by :
        (k j : PackPrefix) (f : PackPrefix → Option PendingPack) (id : ContentId) (i : Info)
        (d : List ℕ) (rest : Option Info)
        → or_else (in_pack (update f k (some pp) j) id) rest ≡ some i
        → source env blob (update f k (some pp) j) w id i.pack_blob_id ≡ some d
        → (x : List ℕ) × (source env blob (update f k none j) v id i.pack_blob_id ≡ some (d ++ x))
    moved_by PackPrefix.regular PackPrefix.regular f id i d rest s e = moved id i d rest s e
    moved_by PackPrefix.special PackPrefix.special f id i d rest s e = moved id i d rest s e
    moved_by PackPrefix.regular PackPrefix.special f id i d rest s e = (
      [],
      source_stays (f PackPrefix.special) id i.pack_blob_id d e ∙ ap some (sym (append-nil d)),
    )
    moved_by PackPrefix.special PackPrefix.regular f id i d rest s e = (
      [],
      source_stays (f PackPrefix.regular) id i.pack_blob_id d e ∙ ap some (sym (append-nil d)),
    )

    still_sound :
        (k j : PackPrefix) (o : Option PendingPack)
        → (k ≡ j → ⊥)
        → take 1 pp.pack_blob_id ≡ letter k
        → PendingSound env blob j w o
        → PendingSound env blob j v o
    still_sound k j none ne e p = tt
    still_sound k j (some q) ne e p = record {
      not_finalized = p.not_finalized;
      fresh =
          put.others q.pack_blob_id (other_letter pp.pack_blob_id q.pack_blob_id k j e p.named ne)
          ∙ p.fresh;
      named = p.named;
      filled = p.filled;
    }

    sound_by :
        (k j : PackPrefix) (f : PackPrefix → Option PendingPack)
        → take 1 pp.pack_blob_id ≡ letter k
        → PendingSound env blob j w (update f k (some pp) j)
        → PendingSound env blob j v (update f k none j)
    sound_by PackPrefix.regular PackPrefix.regular f e p = tt
    sound_by PackPrefix.special PackPrefix.special f e p = tt
    sound_by PackPrefix.regular PackPrefix.special f e p =
        still_sound PackPrefix.regular PackPrefix.special (f PackPrefix.special) two_prefixes e p
    sound_by PackPrefix.special PackPrefix.regular f e p =
        still_sound PackPrefix.special PackPrefix.regular (f PackPrefix.regular)
          (λ d. two_prefixes (sym d)) e p

  self :
      (P : PackPrefix → Option PendingPack → Type 0) (f : PackPrefix → Option PendingPack)
      (k : PackPrefix) (p : Option PendingPack)
      → P k (update f k p k)
      → P k p
  self P f PackPrefix.regular p h = h
  self P f PackPrefix.special p h = h

  module _ (Faulty : E → Type 0) (law : Lawful env Faulty) (store : Storage env blob) where
    written-Preserves :
        (s t : Manager W) (pp : PendingPack)
        → Sound env blob (set_pending s pp.prefix (some pp))
        → PackSound env blob pp.prefix s.world pp
        → Blob env blob pp s.world t.world
        → Small t
        → Gone env Faulty law s pp tt t
        → Preserves env blob (set_pending s pp.prefix (some pp)) t
    unfolding seen
    written-Preserves s t pp p own b m g = record {
      keeps = g.0;
      sound = λ j.
          subst (λ f. PendingSound env blob j t.world (f j)) (sym g.1)
            (sound_by pp s.world t.world own.fresh b pp.prefix j s.pending_packs own.named (p j));
      small = m;
      moves = λ id i d h e.
          subst
            (λ f.
              (x : List ℕ) × (source env blob (f (pack_prefix_for_content_id id)) t.world id
                  i.pack_blob_id
                ≡ some (d ++ x)))
            (sym g.1)
            (moved_by pp s.world t.world own.fresh b pp.prefix (pack_prefix_for_content_id id)
              s.pending_packs id i d
              (or_else (lookup_info s.pack_index_builder id) (committed env s.world id)) h e);
    }

    -- A pack that is written without an error: nothing is seen in another way, and all bytes are there.
    pub write_pack-Preserves :
        (s : Manager W) (pp : PendingPack) (a : Unit {0})
        → Valid env (set_pending s pp.prefix (some pp))
        → Sound env blob (set_pending s pp.prefix (some pp))
        → ((k : PackPrefix) → PendingSmall (update s.pending_packs pp.prefix none k))
        → Gone env Faulty law s pp tt (write_pack_and_add_to_index env pp (start_writing pp s)).1
        → (write_pack_and_add_to_index env pp (start_writing pp s)).0 ≡ ok a
        → Preserves env blob
            (set_pending s pp.prefix (some pp))
            (write_pack_and_add_to_index env pp (start_writing pp s)).1
    write_pack-Preserves s pp a v p m g e =
        let own =
          self (λ k o. PendingSound env blob k s.world o) s.pending_packs pp.prefix (some pp)
            (p pp.prefix) in
        let packs =
          self (λ k o. PackOf env k o) s.pending_packs pp.prefix (some pp) (v.packs pp.prefix) in
        written-Preserves s _ pp p own
          (write_pack-Blob env blob store s pp.prefix pp a packs.1 own e)
          (λ k. subst (λ f. PendingSmall (f k)) (sym g.1) (m k)) g
