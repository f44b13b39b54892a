-- ===== src/Content/Rewriting.antt =====
-- RewriteContent and UndeleteContent of repo/content/content_manager.go.
use kopia.Prelude.{ℕ, ◌≡◌, ap, ◌∙◌, inl, inr, false, List, Option, none, some, Bool-cases}
use kopia.Content.Action.{Outcome, returns, Outcome-bind, Outcome-imp}
use kopia.Content.Adding.{seconds_of, PutAs, PutAs-before}
use kopia.Content.Committing.{raised}
use kopia.Content.Live.{Live, add_to_pack-PutAs, PutAs-Live, Live-before}
use kopia.Content.Looking.{get_content_info-seen}
use kopia.Content.Operations.{rewrite_content, undelete_content, rewrite_content_as}
use kopia.Content.Reading.{get_content_data, get_content_data_and_info, read_payload}
use kopia.Content.Seen.{MayRaise, Lawful, Valid, Keeps, seen}
use kopia.Content.State.{PendingPack, Environment, Manager}
use kopia.Index.ContentId.{ContentId}
use kopia.Index.Info.{Info}
use kopia.Prelude.{bytes_equal}

module _ {W E : Type 0} (env : Environment W E) (Faulty : E → Type 0) (law : Lawful env Faulty)
    (refreshes : (w : W) → (env.refresh w).0 ≡ none)
    (read_fails : (i : Info) (w : W) → MayRaise Faulty (env.read_content i w))
    (decode_fails : (b : List ℕ) (i : Info) → MayRaise Faulty (env.decode b i)) where
  read_payload-MayRaise :
      (pp : Option PendingPack) (i : Info) (w : W) → MayRaise Faulty (read_payload env pp i w)
  read_payload-MayRaise none i w = read_fails i w
  read_payload-MayRaise (some pp) i w =
      elim (Bool-cases (bytes_equal pp.pack_blob_id i.pack_blob_id)) [
        | inl e ↦ rw e tt
        | inr e ↦ rw e (read_fails i w)
      ]

  get_content_data-same :
      (pp : Option PendingPack) (i : Info) (s : Manager W)
      → Outcome Faulty (λ b t. t ≡ s) (get_content_data env pp i s)
  get_content_data-same pp i s =
      Outcome-bind Faulty
        (raised env Faulty law (read_payload env pp i s.world) s
          (read_payload-MayRaise pp i s.world))
        (λ payload t a. rw (a.0) (
          Outcome-imp Faulty (λ b t1 c. c.0)
            (raised env Faulty law (env.decode payload i) s (decode_fails payload i))))

  -- the data of a content are read, and nothing is seen in another way
  data_and_info-seen :
      (s : Manager W) (id : ContentId) (i : Info)
      → Valid env s
      → seen env s id ≡ some i
      → Outcome Faulty
          (λ found t. Keeps env s t × (found.1 ≡ i))
          (get_content_data_and_info env id s)
  unfolding get_content_data_and_info
  data_and_info-seen s id i v e =
      Outcome-bind Faulty (get_content_info-seen env Faulty law refreshes s id i v e) (λ found t l.
        Outcome-bind Faulty (get_content_data-same found.0 found.1 t)
          (λ bytes t2 b. rw b (returns (bytes, found.1) t (l.0, l.1))))

  -- In a valid state, if no refresh of the indexes fails, RewriteContent of a content that is seen
  -- ends without an error or with one of the surroundings, to which reads and decryption belong.
  -- Without an error the content is seen with a new info of a later time, deleted if and only if it
  -- was, and the others as before.
  pub rewrite_content-PutAs :
      (s : Manager W) (id : ContentId) (i : Info)
      → Valid env s
      → seen env s id ≡ some i
      → Outcome Faulty (PutAs env s id i.deleted) (rewrite_content env id s)
  unfolding rewrite_content rewrite_content_as
  rewrite_content-PutAs s id i v e =
      Outcome-bind Faulty
        (raised env Faulty law (env.mutable_parameters s.world) s (law.parameters_fail s.world))
        (λ mp t0 same. rw (same.0) (
          Outcome-bind Faulty (data_and_info-seen s id i v e) (λ found t l. rw (l.1) (
            Outcome-imp Faulty (λ u t2 p. PutAs-before env Faulty law s t id i.deleted u t2 l.0 p)
              (add_to_pack-PutAs env Faulty law refreshes mp id found.0 i.deleted
                i.compression_header_id (some i.timestamp_seconds) t l.0.valid
                (ap seconds_of (l.0.same id ∙ e)))))))

  -- In a valid state, if no refresh of the indexes fails, UndeleteContent of a content that is seen
  -- ends without an error or with one of the surroundings, to which reads and decryption belong.
  -- Without an error the content is seen, and is not deleted; every other content is seen as
  -- before.
  pub undelete_content-Live :
      (s : Manager W) (id : ContentId) (i : Info)
      → Valid env s
      → seen env s id ≡ some i
      → Outcome Faulty (λ u t. Live env s id t) (undelete_content env id s)
  unfolding undelete_content rewrite_content_as
  undelete_content-Live s id i v e =
      Outcome-bind Faulty
        (raised env Faulty law (env.mutable_parameters s.world) s (law.parameters_fail s.world))
        (λ mp t0 same. rw (same.0) (
          Outcome-bind Faulty (data_and_info-seen s id i v e) (λ found t l.
            rw (l.1) (elim (Bool-cases i.deleted) [
              | inl d ↦ rw d (
                  Outcome-imp Faulty
                    (λ u t2 p.
                      Live-before env Faulty law refreshes s t t2 id l.0
                        (PutAs-Live env Faulty law refreshes t id u t2 p))
                    (add_to_pack-PutAs env Faulty law refreshes mp id found.0 false
                      i.compression_header_id (some i.timestamp_seconds) t l.0.valid
                      (ap seconds_of (l.0.same id ∙ e))))
              | inr d ↦ rw d (
                  returns tt t (record {
                    valid = l.0.valid;
                    info = i;
                    there = l.0.same id ∙ e;
                    not_deleted = d;
                    others = λ j h. l.0.same j;
                  }))
            ]))))
