-- ===== src/Content/Data/Preserving.antt =====
-- What preserves the bytes of contents of repo/content/content_manager.go.
use mathlib.Core.Path.{subst}
use kopia.Prelude.{
  ℕ, ◌+◌, ◌≤◌, ◌≡◌, refl, sym, ap, ◌∙◌, List, [], ◌++◌, Option, none, some, length, take, drop,
  append_assoc, append-nil, arith, take-append_le, drop-append_le, length-drop, length-append,
}
use kopia.Content.Flushing.{Keeps-refl, Keeps-trans}
use kopia.Content.Seen.{Valid, Keeps, seen}
use kopia.Content.State.{PackPrefix, PendingPack, Environment, Manager, pack_prefix_for_content_id}
use kopia.Index.ContentId.{ContentId}
use kopia.Index.Info.{Info}
use kopia.Content.Data.{
  Small, PendingSmall, PendingSound, Sound, source, Moves, Preserves, Holds, region,
}

pub region-append :
    (i : Info) (d x : List ℕ)
    → i.pack_offset + i.packed_length ≤ length d
    → region i (d ++ x) ≡ region i d
region-append i d x h =
    ap (take i.packed_length) (drop-append_le i.pack_offset d x (omega (arith, h)))
    ∙ take-append_le i.packed_length (drop i.pack_offset d) x
        (omega (arith, h, length-drop i.pack_offset d))

module _ {W E : Type 0} (env : Environment W E) (blob : W → List ℕ → Option (List ℕ)) where
  pub Preserves-refl :
      (s : Manager W) → Valid env s → Sound env blob s → Small s → Preserves env blob s s
  Preserves-refl s v p m = record {
    keeps = Keeps-refl env s v;
    sound = p;
    small = m;
    moves = λ id i d e h. ([], h ∙ ap some (sym (append-nil d)));
  }

  pub Moves-trans :
      (s t u : Manager W) (id : ContentId)
      → seen env t id ≡ seen env s id
      → Moves env blob s t id
      → Moves env blob t u id
      → Moves env blob s u id
  Moves-trans s t u id e a b i d h k =
      let first = a i d h k in
      let second = b i (d ++ first.0) (e ∙ h) first.1 in
      (first.0 ++ second.0, second.1 ∙ ap some (append_assoc d first.0 second.0))

  pub Preserves-trans :
      (s t u : Manager W) → Preserves env blob s t → Preserves env blob t u → Preserves env blob s u
  Preserves-trans s t u a b = record {
    keeps = Keeps-trans env s t u a.keeps b.keeps;
    sound = b.sound;
    small = b.small;
    moves = λ id. Moves-trans s t u id (a.keeps.same id) (a.moves id) (b.moves id);
  }

  pub PendingSound-world :
      (k : PackPrefix) (w v : W) (o : Option PendingPack)
      → ((n : List ℕ) → blob v n ≡ blob w n)
      → PendingSound env blob k w o
      → PendingSound env blob k v o
  PendingSound-world k w v none e p = tt
  PendingSound-world k w v (some pp) e p = record {
    not_finalized = p.not_finalized;
    fresh = e pp.pack_blob_id ∙ p.fresh;
    named = p.named;
    filled = p.filled;
  }

  pub source-world :
      (o : Option PendingPack) (w v : W) (id : ContentId) (n : List ℕ)
      → ((n : List ℕ) → blob v n ≡ blob w n)
      → source env blob o v id n ≡ source env blob o w id n
  source-world none w v id n e = e n
  source-world (some pp) w v id n e = rw (e n) refl

  -- Nothing is pending in another way, and the blobs are the same.
  pub frame-Preserves :
      (s t : Manager W)
      → Keeps env s t
      → t.pending_packs ≡ s.pending_packs
      → ((n : List ℕ) → blob t.world n ≡ blob s.world n)
      → Sound env blob s
      → Small s
      → Preserves env blob s t
  frame-Preserves s t k e b p m = record {
    keeps = k;
    sound = λ j.
        subst (λ f. PendingSound env blob j t.world (f j)) (sym e)
          (PendingSound-world j s.world t.world (s.pending_packs j) b (p j));
    small = λ j. subst (λ f. PendingSmall (f j)) (sym e) (m j);
    moves = λ id i d h g.
        let o = λ (f : PackPrefix → Option PendingPack).
          source env blob (f (pack_prefix_for_content_id id)) t.world id i.pack_blob_id in
        (
          [],
          ap o e
              ∙ (source-world (s.pending_packs (pack_prefix_for_content_id id)) s.world t.world id
                    i.pack_blob_id b
                  ∙ (g ∙ ap some (sym (append-nil d)))),
        );
  }

  pub Holds-Moves :
      (s t : Manager W) (id : ContentId) (bytes : List ℕ)
      → seen env t id ≡ seen env s id
      → Moves env blob s t id
      → Holds env blob s id bytes
      → Holds env blob t id bytes
  Holds-Moves s t id bytes e m h =
      let later = m h.info h.data_bytes h.there h.from in
      record {
        info = h.info;
        data_bytes = h.data_bytes ++ later.0;
        there = e ∙ h.there;
        from = later.1;
        inside = omega (arith, h.inside, length-append h.data_bytes later.0);
        decoded =
            ap (λ p. env.decode p h.info) (region-append h.info h.data_bytes later.0 h.inside)
            ∙ h.decoded;
      }

  pub Holds-Preserves :
      (s t : Manager W) (id : ContentId) (bytes : List ℕ)
      → Preserves env blob s t
      → Holds env blob s id bytes
      → Holds env blob t id bytes
  Holds-Preserves s t id bytes p h = Holds-Moves s t id bytes (p.keeps.same id) (p.moves id) h
