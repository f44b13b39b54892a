-- ===== src/Checks/Writers.antt =====
-- The object writer of repo/object at concrete inputs.
use mathlib.Core.List.{flatten}
use kopia.Prelude.{
  ◌++◌, ◌≡◌, ◌≤◌, refl, some, length, replicate, ℕ, false, List, [], ◌∷◌, none, arith,
}
use kopia.Checks.Parameters.{list_contents, list_contents-IsContents}
use kopia.Checks.Encoding.{length-encode}
use kopia.Object.Id.{Entry, content_id}
use kopia.Object.Read.{raw_bytes}
use kopia.Object.Writer.Flushed.{Wrote}
use kopia.Object.Writer.Taking.{Ended, write_loop-Ended}
use kopia.Object.Writer.Returns.{IsShrinking, RoundTrip, result-RoundTrip}
use kopia.Object.Writer.{ChunkWriter, ObjectWriter, write_loop, result}
use kopia.Object.Writer.Streaming.{SameLoop}
use kopia.Object.Writer.Calls.{outcome, write_calls, write_calls-flatten}
use kopia.Splitter.Fixed.{
  FixedSplitter, next_split_point, fixed_splitter, fixed_splitter-IsSplitter,
}

abbrev fresh : ChunkWriter list_contents
fresh = record {
  store = [];
  compressor = none;
  prefix = [];
  buffer = [];
  current_position = 0;
  indirect_index = [];
  async_writes = false;
  in_flight = [];
  content_write_error = none;
}

abbrev new_writer : ObjectWriter list_contents fixed_splitter
new_writer = record {
  chunks = fresh;
  total_length = 0;
  splitter = record { cur = 0; chunk_length = 3 };
}

abbrev pieces : List (List ℕ)
pieces = (1 ∷ 2 ∷ []) ∷ (3 ∷ 4 ∷ 5 ∷ 6 ∷ 7 ∷ []) ∷ []

write_calls-flatten_example :
    SameLoop list_contents fixed_splitter fixed_splitter-IsSplitter
      (outcome list_contents fixed_splitter fixed_splitter-IsSplitter
        (write_calls list_contents fixed_splitter fixed_splitter-IsSplitter new_writer pieces))
      (outcome list_contents fixed_splitter fixed_splitter-IsSplitter (
        write_calls list_contents fixed_splitter fixed_splitter-IsSplitter new_writer
          (flatten pieces ∷ [])))
write_calls-flatten_example =
    write_calls-flatten list_contents fixed_splitter fixed_splitter-IsSplitter new_writer pieces
      (omega arith)

-- two chunks of 20 bytes are written, and 5 bytes are buffered
abbrev seven : List ℕ
seven = replicate 20 7

abbrev eight : List ℕ
eight = replicate 20 8

abbrev chunk_at : ℕ → ℕ → Entry
chunk_at start k = record {
  start = start;
  length = 20;
  object = record {
    cid = record { prefix = 0; hash = k ∷ [] };
    indirection = 0;
    compression = false;
  };
}

abbrev busy : ChunkWriter list_contents
busy = record {
  store = seven ∷ eight ∷ [];
  compressor = none;
  prefix = [];
  buffer = replicate 5 9;
  current_position = 40;
  indirect_index = chunk_at 0 0 ∷ chunk_at 20 1 ∷ [];
  async_writes = false;
  in_flight = [];
  content_write_error = none;
}

busy-Wrote : Wrote list_contents list_contents-IsContents busy (seven ++ (eight ++ replicate 5 9))
unfolding raw_bytes content_id flatten
busy-Wrote = record {
  pieces = seven ∷ eight ∷ [];
  holds =
      (refl, refl, refl, (0, omega arith, refl), (refl, refl, refl, (1, omega arith, refl), tt));
  position = refl;
  all = refl;
  sync = refl;
  idle = refl;
  no_error = refl;
}

block-next_long :
    (s : FixedSplitter) (b : List ℕ) (n : ℕ)
    → (s.cur ≡ 0) × (s.chunk_length ≡ 120)
    → (next_split_point s b).0 ≡ some n
    → (120 ≤ n)
      × (n ≤ length b)
      × (((next_split_point s b).1.cur ≡ 0) × ((next_split_point s b).1.chunk_length ≡ 120))
unfolding next_split_point
block-next_long s b n h e = ground arith

abbrev block-IsShrinking :
    IsShrinking list_contents list_contents-IsContents fixed_splitter fixed_splitter-IsSplitter
      (record { cur = 0; chunk_length = 120 })
block-IsShrinking = record {
  m = 120;
  c = 29;
  m_positive = omega arith;
  c-le-m = omega arith;
  encode_size = λ es h. omega (arith, length-encode es h);
  long = record { Fresh = λ s. (s.cur ≡ 0) × (s.chunk_length ≡ 120); next_long = block-next_long };
  fresh = (refl, refl);
  ready = omega arith;
}

result-RoundTrip_example :
    RoundTrip list_contents list_contents-IsContents fixed_splitter fixed_splitter-IsSplitter
      (record { cur = 0; chunk_length = 120 })
      block-IsShrinking
      busy.store
      (seven ++ (eight ++ replicate 5 9))
      2
      (result list_contents fixed_splitter (record { cur = 0; chunk_length = 120 }) 3 busy)
result-RoundTrip_example =
    result-RoundTrip list_contents list_contents-IsContents fixed_splitter fixed_splitter-IsSplitter
      (record { cur = 0; chunk_length = 120 }) block-IsShrinking 2 busy
      (seven ++ (eight ++ replicate 5 9)) (omega arith) (omega arith) (omega arith) busy-Wrote
      (omega arith)

write_loop-Ended_example :
    Ended list_contents list_contents-IsContents fixed_splitter fixed_splitter-IsSplitter busy.store
      ((seven ++ (eight ++ replicate 5 9)) ++ replicate 30 4)
      (write_loop list_contents fixed_splitter 30
        (record { cur = 5; chunk_length = 20 })
        busy
        (replicate 30 4))
write_loop-Ended_example =
    write_loop-Ended list_contents list_contents-IsContents fixed_splitter fixed_splitter-IsSplitter
      30 (record { cur = 5; chunk_length = 20 }) busy (seven ++ (eight ++ replicate 5 9))
      (replicate 30 4) (omega arith) (omega arith) busy-Wrote
