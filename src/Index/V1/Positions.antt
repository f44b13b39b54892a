-- ===== src/Index/V1/Positions.antt =====
-- What is read at each position of a file of repo/content/index/index_v1.go, and where the search ends.
use kopia.Prelude.{
  ℕ, ◌+◌, ◌*◌, ◌<◌, ◌≡◌, refl, sym, ap, ◌∙◌, List, ◌++◌, none, some, length, get_elem?, arith, ok,
  length-append, append_assoc, take-append_length, drop-append_length, if◌then◌else◌, bytes_equal,
}
use kopia.Index.Info.{Info}
use kopia.Index.Search.{Finds, search-First}
use kopia.Index.V1.{IndexV1, prepare_extra_data, slice_of, entry_bytes, header_of}
use kopia.Index.V1.Entry.{Fits}
use kopia.Index.V1.File.{
  Buildable, builder_of, rows, file, get_elem?-map, length-header, rows-length, opened,
}
use kopia.Index.V1.Keys.{IsSorted, All-get_elem?, get_elem?-below, key_of, tested, tested-monotone}
use kopia.Index.V1.Layout.{row, length-key, length-row, split_at, slice_of-append}
use kopia.Index.V1.Reader.{key_at, key_not_below, read_entry, find_entry_position_exact}

regroup : (a b c d e : List ℕ) → a ++ ((b ++ (c ++ d)) ++ e) ≡ (a ++ b) ++ (c ++ (d ++ e))
regroup a b c d e = simp append_assoc

module _ (k : ℕ) (cs : List Info) (h : Buildable k cs) (overhead : ℕ) (suffix : List ℕ) where
  abbrev pub extra : List ℕ
  extra = (prepare_extra_data cs).1

  abbrev pub index : IndexV1
  index = opened k cs h overhead suffix

  -- one row of the file, with what stands before and after it
  record RowAt (p : ℕ) (it : Info) : Type 0 where
    before : List ℕ
    after : List ℕ
    split : file cs suffix ≡ before ++ (row (builder_of cs) it ++ after)
    start : length before ≡ 8 + (k + 20) * p

  row_at : (p : ℕ) (it : Info) → get_elem? cs p ≡ some it → RowAt p it
  row_at p it e =
      let b = builder_of cs in
      let (before, after, s, l) =
        split_at (k + 20) p (row b it) (rows cs) (rows-length k cs h)
          (get_elem?-map (row b) cs p it e) in
      record {
        before = header_of b ++ before;
        after = after ++ (extra ++ suffix);
        split = rw s (regroup (header_of b) before (row b it) after (extra ++ suffix));
        start = omega (arith, length-append (header_of b) before, length-header k cs h, l);
      }

  abbrev pub entry_of : Info → List ℕ
  entry_of it = entry_bytes (builder_of cs) it

  pub key_at-ok : (p : ℕ) (it : Info) → get_elem? cs p ≡ some it → key_at index p ≡ ok (key_of it)
  unfolding key_at
  key_at-ok p it e =
      let r = row_at p it e in
      let f = All-get_elem? (Fits k) cs p it h.fits e in
      ap (λ d. slice_of d (8 + (k + 20) * p) k)
        (r.split ∙ ap (λ d. r.before ++ d) (append_assoc (key_of it) (entry_of it) r.after))
      ∙ slice_of-append r.before (key_of it) (entry_of it ++ r.after) (8 + (k + 20) * p) k
          (sym r.start) (sym (length-key k it f))

  pub row_at-ok :
      (p : ℕ) (it : Info)
      → get_elem? cs p ≡ some it
      → slice_of (file cs suffix) (8 + (k + 20) * p) (k + 20) ≡ ok (key_of it ++ entry_of it)
  row_at-ok p it e =
      let r = row_at p it e in
      let f = All-get_elem? (Fits k) cs p it h.fits e in
      ap (λ d. slice_of d (8 + (k + 20) * p) (k + 20)) r.split
      ∙ slice_of-append r.before (row (builder_of cs) it) r.after (8 + (k + 20) * p) (k + 20)
          (sym r.start) (sym (length-row k (builder_of cs) it f))

  -- The entry at a position is found if its key is the one that is looked for.
  pub read_entry-ok :
      (p : ℕ) (it : Info) (key : List ℕ)
      → get_elem? cs p ≡ some it
      → length key ≡ k
      → read_entry index key p
        ≡ ok (if bytes_equal (key_of it) key then some (entry_of it) else none)
  unfolding read_entry
  read_entry-ok p it key e l =
      let f = All-get_elem? (Fits k) cs p it h.fits e in
      let same : length key ≡ length (key_of it) = omega (arith, l, length-key k it f) in
      rw
        (
          row_at-ok p it e,
          same,
          take-append_length (key_of it) (entry_of it),
          drop-append_length (key_of it) (entry_of it),
        )
        refl

  module _ (s : IsSorted cs) (key : List ℕ) where
    pub not_below-ok : (i : ℕ) → i < length cs → key_not_below index key i ≡ ok (tested cs s key i)
    unfolding key_not_below
    not_below-ok i lt = let (it, e) = get_elem?-below cs i lt in rw (key_at-ok i it e, e) refl

    pub position-ok :
        Finds
          (length cs)
          (key_not_below index key)
          (tested cs s key)
          not_below-ok
          (tested-monotone cs s key)
          (find_entry_position_exact index key)
    unfolding find_entry_position_exact
    position-ok =
        search-First (length cs) (key_not_below index key) (tested cs s key) not_below-ok
          (tested-monotone cs s key)
