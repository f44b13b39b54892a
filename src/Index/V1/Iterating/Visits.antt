-- ===== src/Index/V1/Iterating/Visits.antt =====
-- What Iterate of repo/content/index/index_v1.go visits.
use kopia.Prelude.{
  ℕ, suc, ◌+◌, ◌-◌, ◌≤◌, ◌<◌, ◌≡◌, refl, sym, ◌∙◌, inl, inr, Bool, true, false, List, [], ◌∷◌, ◌++◌,
  map, Option, none, some, length, take, drop, get_elem?, arith, All, Result, ok, Bool-cases, ltb,
  ltb→lt, take-append_length, drop-append_length, length-drop,
}
use kopia.Index.ContentId.{IdRange, IsValid, bytes_to_content_id, content_id_to_bytes}
use kopia.Index.Info.{Info}
use kopia.Index.Search.{First, search, search-First, found-First}
use kopia.Index.V1.{IndexError}
use kopia.Index.V1.Entry.{Fits}
use kopia.Index.V1.File.{Buildable}
use kopia.Index.V1.Iterating.{prefix_not_below, find_entry_position, iterate_from, iterate}
use kopia.Index.V1.Keys.{
  key_of, IsSorted, All-get_elem?, get_elem?-below, get_elem?-lt, sorted_pair,
}
use kopia.Index.V1.Layout.{length-key}
use kopia.Index.V1.Positions.{index, key_at-ok, row_at-ok, entry_of}
use kopia.Index.V1.RoundTrip.{as_read, info-ok}
use kopia.Index.V1.Iterating.Range.{
  in_range, call_for_all, HasId, from, from-Below, bind_same, walk, All-drop, IsSorted-drop,
  get_elem?-drop, All-get, in_range-drop, walk-in_range,
}

-- the test of the search at an index
abbrev from_opt : List ℕ → Option Info → Bool
from_opt p none = false
from_opt p (some it) = from p it

module _ (cs : List Info) (s : IsSorted cs) (v : All HasId cs) (p : List ℕ) where
  abbrev from_at : ℕ → Bool
  from_at i = from_opt p (get_elem? cs i)

  from_at-monotone : (i j : ℕ) → i ≤ j → j < length cs → from_at i ≡ true → from_at j ≡ true
  from_at-monotone i j le lt h =
      let (a, ea) = get_elem?-below cs i (omega (arith, le, lt)) in
      let (b, eb) = get_elem?-below cs j lt in
      elim (Bool-cases (ltb i j)) [
        | inr q ↦ let same : i ≡ j = ground (arith, q, le) in rw (← same) h
        | inl q ↦ rw eb (
            from-Below p a b (All-get_elem? HasId cs i a v ea) (All-get_elem? HasId cs j b v eb)
              (sorted_pair cs i j a b s (ltb→lt i j q) ea eb) (rw ea at h))
      ]

id-key : (it : Info) → bytes_to_content_id (key_of it) ≡ it.content_id
unfolding bytes_to_content_id content_id_to_bytes
id-key it = refl

module _ (k : ℕ) (cs : List Info) (h : Buildable k cs) (overhead : ℕ) (suffix : List ℕ) where
  module _ {E S : Type 0} (wrap : IndexError → E) (cb : Info → S → Result E S) (r : IdRange) where
    iterate_from-walk :
        (its : List Info) (i : ℕ) (s : S)
        → ((j : ℕ) (it : Info) → get_elem? its j ≡ some it → get_elem? cs (i + j) ≡ some it)
        → iterate_from wrap cb (index k cs h overhead suffix) r (length its) i s
          ≡ walk cb (as_read overhead) r.end_id its s
    unfolding iterate_from walk
    iterate_from-walk [] i s g = refl
    iterate_from-walk (it ∷ its) i s g =
        let here : i + 0 ≡ i = omega arith in
        let e : get_elem? cs i ≡ some it = rw here at (g 0 it refl) in
        let f = All-get_elem? (Fits k) cs i it h.fits e in
        let next = λ (t : S).
          iterate_from-walk its (suc i) t
            (λ j x q. let m : i + suc j ≡ suc i + j = omega arith in rw m at (g (suc j) x q)) in
        let key : take k (key_of it ++ entry_of k cs h overhead suffix it) ≡ key_of it =
          rw (← length-key k it f) (take-append_length (key_of it) _) in
        let entry : drop k (key_of it ++ entry_of k cs h overhead suffix it)
            ≡ entry_of k cs h overhead suffix it =
          rw (← length-key k it f) (drop-append_length (key_of it) _) in
        rw
          (
            row_at-ok k cs h overhead suffix i it e,
            key,
            entry,
            id-key it,
            info-ok k cs h overhead suffix i it e,
          )
          (elim (Bool-cases (from r.end_id it)) [
            | inl q ↦ rw q refl
            | inr q ↦ rw q (bind_same (cb (as_read overhead it) s) _ _ next)
          ])

  module _ (p : List ℕ) (s : IsSorted cs) (v : All HasId cs) where
    prefix_not_below-ok :
        (i : ℕ)
        → i < length cs
        → prefix_not_below (index k cs h overhead suffix) p i ≡ ok (from_at cs s v p i)
    unfolding prefix_not_below
    prefix_not_below-ok i lt =
        let (it, e) = get_elem?-below cs i lt in
        rw (key_at-ok k cs h overhead suffix i it e, e, id-key it) refl

    start-First :
        (q : ℕ) × (find_entry_position (index k cs h overhead suffix) p ≡ ok q)
        × First (length cs) (from_at cs s v p) q
    unfolding find_entry_position
    start-First =
        let test = prefix_not_below (index k cs h overhead suffix) p in
        found-First (length cs) test (from_at cs s v p) prefix_not_below-ok
          (from_at-monotone cs s v p) (search (length cs) test)
          (search-First (length cs) test (from_at cs s v p) prefix_not_below-ok
            (from_at-monotone cs s v p))

module _ (k : ℕ) (cs : List Info) (h : Buildable k cs) (overhead : ℕ) (suffix : List ℕ) where
  -- Over a file of contents that version 1 can hold (Buildable), with sorted keys of valid IDs, Iterate calls
  -- back for the contents of the range, in order, until the callback fails, and returns no error but that of
  -- the callback.
  pub iterate-in_range :
      {E S : Type 0} (wrap : IndexError → E) (cb : Info → S → Result E S) (r : IdRange) (s : S)
      → IsSorted cs
      → All (λ it. IsValid it.content_id) cs
      → iterate wrap cb (index k cs h overhead suffix) r s
        ≡ call_for_all cb (map (as_read overhead) (in_range r cs)) s
  unfolding iterate
  iterate-in_range wrap cb r s st v =
      let (q, e, first) = start-First k cs h overhead suffix r.start_id st v in
      let rest = drop q cs in
      let count : length cs - q ≡ length rest = omega (arith, length-drop q cs) in
      let at_get =
        λ (j : ℕ) (it : Info) (g : get_elem? rest j ≡ some it). sym (get_elem?-drop q j cs) ∙ g in
      let start =
        All-get (λ x. from r.start_id x ≡ true) rest
          (λ j it g.
            let here = at_get j it g in
            let lt = get_elem?-lt cs (q + j) it here in
            rw here at (
              from_at-monotone cs st v r.start_id q (q + j) (omega arith) lt
                (first.here (omega (arith, lt))))) in
      let earlier = in_range-drop r q cs (λ j it lt g. rw g at (first.below j lt)) in
      rw (e, count, earlier)
        (iterate_from-walk k cs h overhead suffix wrap cb r rest q s at_get
          ∙ walk-in_range r cb (as_read overhead) rest s (IsSorted-drop q cs st)
              (All-drop HasId q cs v) start)
