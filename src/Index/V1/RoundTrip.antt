-- ===== src/Index/V1/RoundTrip.antt =====
-- An index file of repo/content/index/index_v1.go: what was built is found again.
use kopia.Prelude.{
  ℕ, ◌+◌, ◌-◌, ◌*◌, ◌%◌, ◌^◌, ◌≤◌, ◌<◌, ◌≡◌, refl, sym, ap, ◌∙◌, inl, inr, true, false, List, [],
  ◌++◌, none, some, length, drop, take, get_elem?, arith, All, ok, length-append, append_assoc, leb,
  ◌==◌, ==_iff, if◌then◌else◌, bytes_equal, Bool-cases, bytes_equal_refl, take-append-drop, All-imp,
  length-take,
}
use mathlib.Core.List.{flatten}
use kopia.Index.ContentId.{ContentId, content_id_to_bytes}
use kopia.Index.Info.{Info}
use kopia.Index.Search.{First, found-First}
use kopia.Index.V1.{
  prepare_extra_data, slice_of, add_all_pack_blob_ids, header_of, name_offset, lookup_offset,
}
use kopia.Index.V1.Entry.{Fits, entry_bytes-ReadsBack}
use kopia.Index.V1.File.{
  Buildable, builder_of, rows, file, length-header, length-entries, extra_data_offset-sum,
}
use kopia.Index.V1.Keys.{
  IsSorted, All-get_elem?, get_elem?-below, get_elem?-lt, key_of, tested, tested-monotone,
  First-index,
}
use kopia.Index.V1.Layout.{length-key, slice_of-append}
use kopia.Index.V1.Names.{offsets-Tells, offsets-All, StandsAt, Has}
use kopia.Index.V1.Positions.{extra, index, entry_of, read_entry-ok, not_below-ok, position-ok}
use kopia.Index.V1.Reader.{
  key_not_below, read_entry, find_entry, find_entry_position_exact, get_info, entry_to_info,
  entry_info, get_pack_blob_id, or_invalid_id,
}

-- What a file tells of a content: all but the original length, which is computed from the packed one.
abbrev pub as_read : ℕ → Info → Info
as_read overhead it = record it {
  original_length = (it.packed_length + 2 ^ 32 - overhead) % 2 ^ 32;
  compression_header_id = 0;
  encryption_key_id = 0;
}

regroup :
    (a b c d e f : List ℕ) → a ++ (b ++ ((c ++ (d ++ e)) ++ f)) ≡ (a ++ (b ++ c)) ++ (d ++ (e ++ f))
regroup a b c d e f = simp append_assoc

module _ (k : ℕ) (cs : List Info) (h : Buildable k cs) (overhead : ℕ) (suffix : List ℕ) where
  -- where the name of a content's pack blob stands
  name_at :
      (q : ℕ) (it : Info)
      → get_elem? cs q ≡ some it
      → (o : ℕ) × (lookup_offset (builder_of cs).pack_blob_id_offsets it.pack_blob_id ≡ some o)
        × StandsAt (extra k cs h overhead suffix) o it.pack_blob_id
  unfolding prepare_extra_data lookup_offset
  name_at q it e =
      let all = add_all_pack_blob_ids ([], []) cs in
      let named = All-imp (Fits k) (λ i. 0 < length i.pack_blob_id) cs (λ i f. f.packed) h.fits in
      let (o, has) =
        All-get_elem? (λ i. Has all i.pack_blob_id) cs q it (offsets-All ([], []) cs named) e in
      let tells =
        offsets-Tells ([], []) cs (omega (arith, h.room)) (λ id o e. absurd (ground (arith, e))) in
      (o, has, tells it.pack_blob_id o has)

  name_offset-sum :
      (it : Info) (o : ℕ)
      → lookup_offset (builder_of cs).pack_blob_id_offsets it.pack_blob_id ≡ some o
      → o ≤ length (extra k cs h overhead suffix)
      → name_offset (builder_of cs) it ≡ 8 + length cs * (k + 20) + o
  name_offset-sum it o e le = rw (e, extra_data_offset-sum k cs h) (omega (arith, h.room, le))

  -- The name of the pack blob is read from the extra names.
  name-ok :
      (q : ℕ) (it : Info)
      → get_elem? cs q ≡ some it
      → get_pack_blob_id (index k cs h overhead suffix) (entry_of k cs h overhead suffix it)
        ≡ it.pack_blob_id
  unfolding get_pack_blob_id
  name-ok q it e =
      let f = All-get_elem? (Fits k) cs q it h.fits e in
      let entry = entry_bytes-ReadsBack k (builder_of cs) it f in
      let (o, found, stands) = name_at q it e in
      let names = extra k cs h overhead suffix in
      let size = length it.pack_blob_id in
      let before = header_of (builder_of cs) ++ (flatten (rows cs) ++ take o names) in
      let after = drop size (drop o names) in
      let data_split : names ≡ take o names ++ (it.pack_blob_id ++ after) = sym (
        ap (λ d. take o names ++ d)
          (ap (λ d. d ++ after) (sym stands.read) ∙ take-append-drop size (drop o names))
        ∙ take-append-drop o names) in
      let split : file cs suffix ≡ before ++ (it.pack_blob_id ++ (after ++ suffix)) =
        ap (λ d. header_of (builder_of cs) ++ (flatten (rows cs) ++ (d ++ suffix))) data_split
        ∙ regroup (header_of (builder_of cs)) (flatten (rows cs)) (take o names) it.pack_blob_id
            after suffix in
      let start : name_offset (builder_of cs) it ≡ length before = omega (
        arith,
        name_offset-sum it o found (omega (arith, stands.inside)),
        length-append (header_of (builder_of cs)) (flatten (rows cs) ++ take o names),
        length-append (flatten (rows cs)) (take o names),
        length-header k cs h,
        length-entries k cs h,
        length-take o names,
        stands.inside,
      ) in
      rw (entry.name, entry.name_length)
        (ap (λ d. or_invalid_id (slice_of d (name_offset (builder_of cs) it) size)) split
          ∙ ap or_invalid_id (
              slice_of-append before it.pack_blob_id (after ++ suffix)
                (name_offset (builder_of cs) it) size start refl))

  pub info-ok :
      (q : ℕ) (it : Info)
      → get_elem? cs q ≡ some it
      → entry_to_info
          (index k cs h overhead suffix)
          it.content_id
          (entry_of k cs h overhead suffix it)
        ≡ ok (as_read overhead it)
  unfolding entry_to_info entry_info
  info-ok q it e =
      let f = All-get_elem? (Fits k) cs q it h.fits e in
      let entry = entry_bytes-ReadsBack k (builder_of cs) it f in
      let sized : (length (entry_of k cs h overhead suffix it) == 20) ≡ true =
        (==_iff (length (entry_of k cs h overhead suffix it)) 20).1 entry.size in
      rw
        (
          sized,
          entry.timestamp,
          entry.version,
          entry.offset,
          entry.deleted,
          entry.packed_length,
          name-ok q it e,
        )
        refl

  module _ (s : IsSorted cs) (content_id : ContentId)
      (sized : length (content_id_to_bytes [] content_id) ≡ k) where
    abbrev key : List ℕ
    key = content_id_to_bytes [] content_id

    -- what is found is at the first position whose key is not below
    find_entry-ok :
        (p : ℕ) × First (length cs) (tested cs s key) p
        × (find_entry (index k cs h overhead suffix) content_id ≡ (
            if leb (length cs) p then ok none else read_entry (index k cs h overhead suffix) key p))
    unfolding find_entry
    find_entry-ok =
        let known : (k == 255) ≡ false = ground (arith, h.short_key) in
        let same : (length key == k) ≡ true = (==_iff (length key) k).1 sized in
        let ix = index k cs h overhead suffix in
        let test = not_below-ok k cs h overhead suffix s key in
        let (p, e, f) =
          found-First (length cs) (key_not_below ix key) (tested cs s key) test
            (tested-monotone cs s key) (find_entry_position_exact ix key)
            (position-ok k cs h overhead suffix s key) in
        (p, f, rw (known, same, e) refl)

  -- Of contents with sorted keys, each is found as it was written.
  pub get_info-as_read :
      (q : ℕ) (it : Info)
      → IsSorted cs
      → get_elem? cs q ≡ some it
      → get_info (index k cs h overhead suffix) it.content_id ≡ ok (some (as_read overhead it))
  unfolding get_info
  get_info-as_read q it s e =
      let f = All-get_elem? (Fits k) cs q it h.fits e in
      let sized = length-key k it f in
      let (p, first, found) = find_entry-ok s it.content_id sized in
      let here : p ≡ q = First-index cs s (key_of it) p q it first e refl in
      let inside : leb (length cs) p ≡ false = ground (arith, here, get_elem?-lt cs q it e) in
      rw
        (
          found,
          inside,
          here,
          read_entry-ok k cs h overhead suffix q it (key_of it) e sized,
          bytes_equal_refl (key_of it),
          info-ok q it e,
        )
        refl

  -- A content ID whose key is no content's is not found.
  pub get_info-none :
      (content_id : ContentId)
      → IsSorted cs
      → length (content_id_to_bytes [] content_id) ≡ k
      → All (λ it. bytes_equal (key_of it) (content_id_to_bytes [] content_id) ≡ false) cs
      → get_info (index k cs h overhead suffix) content_id ≡ ok none
  unfolding get_info
  get_info-none content_id s sized other =
      let target = content_id_to_bytes [] content_id in
      let (p, first, found) = find_entry-ok s content_id sized in
      elim (Bool-cases (leb (length cs) p)) [
        | inl r ↦ rw (found, r) refl
        | inr r ↦
            let (it, e) = get_elem?-below cs p (ground (arith, r)) in
            let differs =
              All-get_elem? (λ i. bytes_equal (key_of i) target ≡ false) cs p it other e in
            rw (found, r, read_entry-ok k cs h overhead suffix p it target e sized, differs) refl
      ]
