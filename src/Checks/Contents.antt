-- ===== src/Checks/Contents.antt =====
-- repo/content/content_manager.go at concrete inputs.
use kopia.Prelude.{
  inr, Bool-cases, length, ◌+◌, leb, if◌then◌else◌, ℕ, ◌≡◌, refl, inl, true, false, List, [], ◌∷◌,
  Option, none, some, ok, err, ap,
}
use kopia.Content.Action.{Outcome, promised}
use kopia.Content.Adding.{PutAs}
use kopia.Content.Committing.{Flushed, flush-Flushed}
use kopia.Content.Deleting.{New, delete_content-Deleted}
use kopia.Content.Dropping.{Deleted}
use kopia.Content.Live.{Live, write_content-Live}
use kopia.Content.Operations.{
  id_of, write_content, delete_content, rewrite_content, undelete_content,
}
use kopia.Content.Packs.{flush}
use kopia.Content.Reading.{get_content, content_info}
use kopia.Content.Rewriting.{rewrite_content-PutAs, undelete_content-Live}
use kopia.Content.Verify.{verify_pack_index_builder, verify_current_pack_items}
use kopia.Content.Seen.{MayRaise, Valid, seen}
use kopia.Content.State.{
  Environment, Manager, pack_prefix_for_content_id, in_pack, remove_pending_pack,
}
use kopia.Index.Builder.{lookup_info, add_all}
use kopia.Index.ContentId.{ContentId, validate_single, id_from_hash, has_prefix}
use kopia.Index.Info.{Info}
use kopia.Checks.Surroundings.{
  World, find, slice, simple, Faulty, simple-Lawful, start, start-Valid,
}

-- a content of five bytes
abbrev pub hello : List ℕ
hello = 1 ∷ 2 ∷ 3 ∷ 4 ∷ 5 ∷ []

abbrev pub hello_id : ContentId
hello_id = record { prefix = 0; hash = hello }

abbrev pub written : Manager World
written = (write_content simple hello [] 0 start).1

abbrev pub flushed : Manager World
flushed = (flush simple written).1

pub write_run : (write_content simple hello [] 0 start).0 ≡ ok hello_id
unfolding write_content validate_single id_from_hash lookup_info find
write_run = refl

read_run : (get_content simple hello_id written).0 ≡ ok hello
unfolding write_content get_content validate_single id_from_hash has_prefix lookup_info find
read_run = refl

flush_ok : (flush simple written).0 ≡ ok tt
unfolding write_content get_content flush seen delete_content rewrite_content undelete_content
    validate_single id_from_hash has_prefix lookup_info add_all remove_pending_pack find
flush_ok = refl

flush_run : (get_content simple hello_id flushed).0 ≡ ok hello
unfolding write_content get_content flush seen delete_content rewrite_content undelete_content
    validate_single id_from_hash has_prefix lookup_info add_all remove_pending_pack find
flush_run = refl

abbrev pub never_refused : (w : World) → (simple.refresh w).0 ≡ none
never_refused w = refl

write_content-Live_example :
    Outcome Faulty
      (λ id t. (id_of simple [] hello ≡ ok id) × Live simple start id t)
      (write_content simple hello [] 0 start)
write_content-Live_example =
    write_content-Live simple Faulty simple-Lawful never_refused start hello [] 0 start-Valid

pub written-Valid : Valid simple written
written-Valid =
    (promised Faulty (write_content simple hello [] 0 start) hello_id
      (write_content-Live simple Faulty simple-Lawful never_refused start hello [] 0 start-Valid)
      write_run).1.valid

flush-Flushed_example : Outcome Faulty (Flushed simple written) (flush simple written)
flush-Flushed_example = flush-Flushed simple Faulty simple-Lawful written written-Valid

flushed-Flushed : Flushed simple written tt flushed
flushed-Flushed =
    promised Faulty (flush simple written) tt
      (flush-Flushed simple Faulty simple-Lawful written written-Valid) flush_ok

abbrev pub hello_info : Info
hello_info = record {
  content_id = hello_id;
  pack_blob_id = 112 ∷ 100 ∷ [];
  timestamp_seconds = 101;
  original_length = 5;
  packed_length = 5;
  pack_offset = 2;
  deleted = false;
  format_version = 3;
  compression_header_id = 0;
  encryption_key_id = 0;
}

hello_seen : seen simple flushed hello_id ≡ some hello_info
unfolding write_content get_content flush seen delete_content rewrite_content undelete_content
    validate_single id_from_hash has_prefix lookup_info add_all remove_pending_pack find
hello_seen = refl

slice-MayRaise : (i : Info) (o : Option (List ℕ)) → MayRaise Faulty (slice i o)
slice-MayRaise i none = refl
slice-MayRaise i (some d) = elim (Bool-cases (leb (i.pack_offset + i.packed_length) (length d))) [
  | inl e ↦ rw e tt
  | inr e ↦ rw e refl
]

abbrev read_fails : (i : Info) (w : World) → MayRaise Faulty (simple.read_content i w)
read_fails i w = slice-MayRaise i (find w.blobs i.pack_blob_id)

rewrite_content-PutAs_example :
    Outcome Faulty (PutAs simple flushed hello_id false) (rewrite_content simple hello_id flushed)
rewrite_content-PutAs_example =
    rewrite_content-PutAs simple Faulty simple-Lawful never_refused read_fails (λ b i. tt) flushed
      hello_id hello_info flushed-Flushed.0.0.valid hello_seen

abbrev deleted_state : Manager World
deleted_state = (delete_content simple hello_id flushed).1

hello_New : New simple flushed hello_id
hello_New =
    inl (ap (λ p. in_pack p hello_id) (flushed-Flushed.0.1 (pack_prefix_for_content_id hello_id)))

delete_ok : (delete_content simple hello_id flushed).0 ≡ ok tt
unfolding write_content get_content flush seen delete_content rewrite_content undelete_content
    validate_single id_from_hash has_prefix lookup_info add_all remove_pending_pack find
delete_ok = refl

delete_content-Deleted_example :
    Outcome Faulty
      (λ u t. Deleted simple flushed hello_id t)
      (delete_content simple hello_id flushed)
delete_content-Deleted_example =
    delete_content-Deleted simple Faulty simple-Lawful never_refused flushed hello_id hello_info
      refl flushed-Flushed.0.0.valid hello_seen refl hello_New

deleted-Valid : Valid simple deleted_state
deleted-Valid =
    (promised Faulty (delete_content simple hello_id flushed) tt
      (delete_content-Deleted simple Faulty simple-Lawful never_refused flushed hello_id hello_info
        refl flushed-Flushed.0.0.valid hello_seen refl hello_New)
      delete_ok).valid

abbrev deleted_hello : Info
deleted_hello = record hello_info { deleted = true; timestamp_seconds = 102 }

deleted_seen : seen simple deleted_state hello_id ≡ some deleted_hello
unfolding write_content get_content flush seen delete_content rewrite_content undelete_content
    validate_single id_from_hash has_prefix lookup_info add_all remove_pending_pack find
deleted_seen = refl

undelete_content-Live_example :
    Outcome Faulty
      (λ u t. Live simple deleted_state hello_id t)
      (undelete_content simple hello_id deleted_state)
undelete_content-Live_example =
    undelete_content-Live simple Faulty simple-Lawful never_refused read_fails (λ b i. tt)
      deleted_state hello_id deleted_hello deleted-Valid deleted_seen

undelete_run :
    (get_content simple hello_id (undelete_content simple hello_id deleted_state).1).0 ≡ ok hello
unfolding write_content get_content flush seen delete_content rewrite_content undelete_content
    validate_single id_from_hash has_prefix lookup_info add_all remove_pending_pack find
undelete_run = refl

-- storage is down: a content that was stored without an error, in a pack that could not be written, is not found
abbrev broken : Manager World
broken = (flush simple (record written { world = record written.world { down = true } })).1

lost_until_retry : (get_content simple hello_id broken).0 ≡ err 2
unfolding write_content get_content flush seen delete_content rewrite_content undelete_content
    validate_single id_from_hash has_prefix lookup_info add_all remove_pending_pack find
lost_until_retry = refl

-- a content that is rewritten and then deleted is still there
abbrev rewritten : Manager World
rewritten = (rewrite_content simple hello_id flushed).1

still_there :
    (content_info simple hello_id (delete_content simple hello_id rewritten).1).0 ≡ ok hello_info
unfolding write_content get_content flush seen delete_content rewrite_content undelete_content
    validate_single id_from_hash has_prefix lookup_info add_all remove_pending_pack find
    content_info
still_there = refl

deleted_twice : (delete_content simple hello_id rewritten).0 ≡ ok tt
unfolding write_content get_content flush seen delete_content rewrite_content undelete_content
    validate_single id_from_hash has_prefix lookup_info add_all remove_pending_pack find
deleted_twice = refl

-- a content that is deleted keeps its pack in the index that is built, which the invariant forbids
abbrev not_committed : Manager World
not_committed = (flush simple (record deleted_state { disable_index_flush_count = 1 })).1

refused_by_invariant :
    verify_pack_index_builder (record { version = 3; max_pack_size = 8 }) not_committed ≡ false
unfolding write_content get_content flush seen delete_content rewrite_content undelete_content
    validate_single id_from_hash has_prefix lookup_info add_all remove_pending_pack find
    verify_pack_index_builder
refused_by_invariant = refl

held_by_invariant : verify_current_pack_items written ≡ true
unfolding write_content get_content flush seen delete_content rewrite_content undelete_content
    validate_single id_from_hash has_prefix lookup_info add_all remove_pending_pack find
    verify_current_pack_items
held_by_invariant = refl

-- a refresh of the indexes that fails once: the content is deleted, and WriteContent does not write it
abbrev flaky : Environment World ℕ
flaky = record simple {
  refresh = λ w. if w.down then (some 1, record w { down = false }) else (none, w);
}

abbrev deleted_down : Manager World
deleted_down =
    let s = (flush simple deleted_state).1 in record s { world = record s.world { down = true } }

not_written : (write_content flaky hello [] 0 deleted_down).0 ≡ ok hello_id
unfolding write_content get_content flush seen delete_content rewrite_content undelete_content
    validate_single id_from_hash has_prefix lookup_info add_all remove_pending_pack find
not_written = refl

still_deleted :
    seen flaky (write_content flaky hello [] 0 deleted_down).1 hello_id ≡ some deleted_hello
unfolding write_content get_content flush seen delete_content rewrite_content undelete_content
    validate_single id_from_hash has_prefix lookup_info add_all remove_pending_pack find
still_deleted = refl
