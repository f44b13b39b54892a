-- ===== src/Checks/Surroundings.antt =====
-- Surroundings for repo/content/content_manager.go: they keep what is committed and the blobs, storage can be
-- down, and a pack is full at eight bytes.
use kopia.Prelude.{
  ◌+◌, leb, ℕ, suc, ◌*◌, ◌≡◌, refl, inl, inr, Bool, true, false, List, [], ◌∷◌, ◌++◌, Option, none,
  some, Result, ok, err, if◌then◌else◌, take, drop, bytes_equal, arith, ltb, length, ◌^◌,
  Bool-cases, sym, ap, ◌∙◌,
}
use kopia.Content.Action.{value_of}
use kopia.Content.Seen.{MayFail, MayRaise, Lawful, Valid, merged}
use kopia.Content.State.{PackPrefix, Environment, Manager}
use kopia.Index.Builder.{lookup_info}
use kopia.Index.ContentId.{ContentId}
use kopia.Index.Info.{Info}

-- what is committed, the blobs, the clock and whether storage is down
pub record World : Type 0 where
  pub infos : ContentId → Option Info
  pub blobs : List (List ℕ × List ℕ)
  pub clock : ℕ
  pub down : Bool

unfoldable pub find : List (List ℕ × List ℕ) → List ℕ → Option (List ℕ)
find [] n = none
find ((m, d) ∷ bs) n = let rest = find bs n in if bytes_equal m n then some d else rest

abbrev pub found : Option Info → Result ℕ Info
found none = err 2
found (some i) = ok i

abbrev pub slice : Info → Option (List ℕ) → Result ℕ (List ℕ)
slice i none = err 1
slice i (some d) =
    if leb (i.pack_offset + i.packed_length) (length d)
    then ok (take i.packed_length (drop i.pack_offset d))
    else err 1

-- a name that no blob has, with a preamble
abbrev pub name_unless : Option (List ℕ) → List ℕ → Result ℕ (List ℕ × List ℕ)
name_unless none n = ok (n, 0 ∷ 0 ∷ [])
name_unless (some d) n = err 1

abbrev pub encoded : List ℕ → Result ℕ (List ℕ × ℕ)
encoded bytes = if ltb (length bytes) (2 ^ 31) then ok (bytes, 0) else err 1

abbrev pub code : PackPrefix → ℕ
code PackPrefix.regular = 112
code PackPrefix.special = 113

abbrev pub store : Bool → List ℕ → List ℕ → World → Option ℕ × World
store true n d w = (some 1, w)
store false n d w = (none, record w { blobs = (n, d) ∷ w.blobs })

abbrev pub simple : Environment World ℕ
simple = record {
  mutable_parameters = λ w. ok (record { version = 3; max_pack_size = 8 });
  time_now = λ w. w.clock * 1000000000;
  hash_data = λ bytes. bytes;
  invalid_id = λ e. 1;
  encode = λ mp bytes id comp. encoded bytes;
  decode = λ payload i. ok payload;
  new_pack = λ k w. (
    name_unless (find w.blobs (code k ∷ w.clock ∷ [])) (code k ∷ w.clock ∷ []),
    record w { clock = suc w.clock },
  );
  finish_pack = λ is bytes. (none, bytes ++ (9 ∷ []));
  put_blob = λ n bytes w. store w.down n bytes w;
  read_content = λ i w. slice i (find w.blobs i.pack_blob_id);
  refresh = λ w. (none, w);
  get_committed = λ w id. found (w.infos id);
  commit_index = λ is w. (none, record w { infos = λ id. merged (lookup_info is id) (w.infos id) });
}

-- the error of a storage that is down, and of an ID
abbrev pub Faulty : ℕ → Type 0
Faulty e = e ≡ 1

pub value_of-found : (o : Option Info) → value_of (found o) ≡ o
value_of-found none = refl
value_of-found (some i) = refl

stored :
    (down : Bool) (n d : List ℕ) (w : World) (id : ContentId)
    → MayFail Faulty (store down n d w).0
      × (value_of (found ((store down n d w).1.infos id)) ≡ value_of (found (w.infos id)))
stored true n d w id = (refl, refl)
stored false n d w id = (tt, refl)

encode-MayRaise : (b : List ℕ) → MayRaise Faulty (encoded b)
encode-MayRaise b = elim (Bool-cases (ltb (length b) (2 ^ 31))) [
  | inl e ↦ rw e tt
  | inr e ↦ rw e refl
]

name-MayRaise : (o : Option (List ℕ)) (n : List ℕ) → MayRaise Faulty (name_unless o n)
name-MayRaise none n = tt
name-MayRaise (some d) n = refl

pub simple-Lawful : Lawful simple Faulty
simple-Lawful = record {
  parameters_fail = λ w. tt;
  encode_fails = λ mp b id c. encode-MayRaise b;
  id_fails = λ e. refl;
  new_pack_fails =
      λ k w. name-MayRaise (find w.blobs (code k ∷ w.clock ∷ [])) (code k ∷ w.clock ∷ []);
  new_pack_keeps = λ k w id. refl;
  finish_fails = λ is b. tt;
  put_fails = λ n b w. (stored w.down n b w (record { prefix = 0; hash = [] })).0;
  put_keeps = λ n b w id. (stored w.down n b w id).1;
  refresh_fails = λ w. tt;
  refresh_keeps = λ w id. refl;
  commit_fails = λ is w. tt;
  commit_merges = λ is w id e.
      value_of-found (merged (lookup_info is id) (w.infos id))
      ∙ ap (merged (lookup_info is id)) (sym (value_of-found (w.infos id)));
}

abbrev pub start : Manager World
start = record {
  world = record { infos = λ id. none; blobs = []; clock = 100; down = false };
  revision = 0;
  flushing = false;
  pending_packs = λ k. none;
  writing_packs = [];
  failed_packs = [];
  pack_index_builder = [];
  disable_index_flush_count = 0;
  flush_pack_indexes_after = 700000000000;
}

pub start-Valid : Valid simple start
unfolding lookup_info
start-Valid = record {
  writing = refl;
  failed = refl;
  packs = λ k. tt;
  newer_built = λ k id i e. absurd (ground (arith, e));
  newer_pending = λ k id i e. absurd (ground (arith, e));
  newer_committed = λ id i e. absurd (ground (arith, e));
}
