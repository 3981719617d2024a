-- ===== src/StreamGraph/Writer.antt =====
-- packages/graph-client/src/fraudnet/graph/batch_writer.py: the buffered writer. A flush takes the
-- buffer under the lock and then sends its queries one by one, while appends and other flushes go
-- on, so that the steps are an append, the taking of the buffer, and one query of one batch in
-- flight. Whether a query is answered or raises is an input of its step, and `query` stands for what
-- the database does with it. `lost` is not kept by the code: it counts the mutations of a batch that
-- a failure leaves unwritten.
use fraudnet.Prelude.{
  ℕ, zero, suc, ◌+◌, String, Bool, true, false, List, [], ◌∷◌, ◌++◌, length, leb, if◌then◌else◌,
}
use fraudnet.Prelude.Dict.{Dict}
use fraudnet.Schemas.{Primitive}

pub data Op : Type 0 where
  upsert_node upsert_edge : Op

-- `GraphMutation`, with the payload that the runner gives it
pub record GraphMutation : Type 0 where
  pub op : Op
  pub id : String
  pub src : String
  pub dst : String
  pub properties : Dict Primitive

-- `BufferedGraphWriter`, with its counters, the batches in flight and the database.
pub record Writer (G : Type 0) : Type 0 where
  pub buf : List GraphMutation
  pub in_flight : List (List GraphMutation)
  pub graph : G
  pub flushed : ℕ
  pub buffer_full : ℕ
  pub flush_failed : ℕ
  pub lost : ℕ

pub data Step : Type 0 where
  append : GraphMutation → Step
  take : Step
  advance : ℕ → Bool → Step

module _ {G : Type 0} (query : G → GraphMutation → G) (max_buffer : ℕ) where
  -- `append`
  unfoldable pub append_to : GraphMutation → Writer G → Writer G
  append_to m w =
      if leb max_buffer (length w.buf)
      then record w { buffer_full = suc w.buffer_full }
      else record w { buf = w.buf ++ m ∷ [] }

  -- The part of `flush` under the lock: an empty buffer is left alone.
  unfoldable pub take_batch : List GraphMutation → Writer G → Writer G
  take_batch [] w = w
  take_batch (m ∷ ms) w = record w { buf = []; in_flight = w.in_flight ++ (m ∷ ms) ∷ [] }

  -- The first query of a batch: it is counted, or the batch is given up.
  unfoldable pub send_next : Bool → Writer G → List GraphMutation → Writer G × List GraphMutation
  send_next ok w [] = (w, [])
  send_next true w (m ∷ ms) = (record w { graph = query w.graph m; flushed = suc w.flushed }, ms)
  send_next false w (m ∷ ms) =
      (record w { flush_failed = suc w.flush_failed; lost = w.lost + length (m ∷ ms) }, [])

  -- The next query of the batch at that place; there is none past the end.
  unfoldable pub send_at :
      ℕ → Bool → Writer G → List (List GraphMutation) → Writer G × List (List GraphMutation)
  send_at i ok w [] = (w, [])
  send_at zero ok w (b ∷ bs) = let (w', b') = send_next ok w b in (w', b' ∷ bs)
  send_at (suc i) ok w (b ∷ bs) = let (w', bs') = send_at i ok w bs in (w', b ∷ bs')

  unfoldable pub step : Writer G → Step → Writer G
  step w (append m) = append_to m w
  step w take = take_batch w.buf w
  step w (advance i ok) = let (w', bs) = send_at i ok w w.in_flight in record w' { in_flight = bs }

  unfoldable pub run : Writer G → List Step → Writer G
  run w [] = w
  run w (s ∷ ss) = run (step w s) ss

unfoldable pub new_writer : {G : Type 0} → G → Writer G
new_writer g = record {
  buf = [];
  in_flight = [];
  graph = g;
  flushed = 0;
  buffer_full = 0;
  flush_failed = 0;
  lost = 0;
}
