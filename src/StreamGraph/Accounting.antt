-- ===== src/StreamGraph/Accounting.antt =====
-- The accounts and the bound of the buffered writer of
-- packages/graph-client/src/fraudnet/graph/batch_writer.py.
use fraudnet.Prelude.{
  ℕ, zero, suc, ◌+◌, ◌≤◌, ◌≡◌, ap, refl, Bool, true, false, List, [], ◌∷◌, ◌++◌, length,
  length-append, arith,
}
use fraudnet.StreamGraph.Writer.{
  GraphMutation, Writer, Step, append_to, take_batch, send_next, send_at, step, run, new_writer,
}

abbrev pub total : List (List GraphMutation) → ℕ
total [] = 0
total (b ∷ bs) = length b + total bs

total-append :
    (bs : List (List GraphMutation)) (b : List GraphMutation)
    → total (bs ++ b ∷ []) ≡ total bs + length b
total-append [] b = omega arith
total-append (c ∷ bs) b = omega (arith, total-append bs b)

-- The mutations that the writer holds or has counted.
abbrev pub accounted : {G : Type 0} → Writer G → ℕ
accounted w = length w.buf + total w.in_flight + w.flushed + w.buffer_full + w.lost

-- How many appends there are among some steps.
abbrev pub appends : List Step → ℕ
appends [] = 0
appends (Step.append m ∷ ss) = suc (appends ss)
appends (Step.take ∷ ss) = appends ss
appends (Step.advance i ok ∷ ss) = appends ss

appends-cons : (s : Step) (ss : List Step) → appends (s ∷ ss) ≡ appends (s ∷ []) + appends ss
appends-cons (Step.append m) ss = omega arith
appends-cons Step.take ss = omega arith
appends-cons (Step.advance i ok) ss = omega arith

module _ {G : Type 0} (query : G → GraphMutation → G) (max_buffer : ℕ) where
  send_next-counts :
      (ok : Bool) (w : Writer G) (b : List GraphMutation)
      → (let r = send_next query max_buffer ok w b in
          (length r.1 + r.0.flushed + r.0.lost ≡ length b + w.flushed + w.lost)
          × (r.0.buf ≡ w.buf)
          × (r.0.buffer_full ≡ w.buffer_full))
  unfolding send_next
  send_next-counts ok w [] = (refl, refl, refl)
  send_next-counts true w (m ∷ ms) = (omega arith, refl, refl)
  send_next-counts false w (m ∷ ms) = (omega arith, refl, refl)

  send_at-counts :
      (i : ℕ) (ok : Bool) (w : Writer G) (bs : List (List GraphMutation))
      → (let r = send_at query max_buffer i ok w bs in
          (total r.1 + r.0.flushed + r.0.lost ≡ total bs + w.flushed + w.lost)
          × (r.0.buf ≡ w.buf)
          × (r.0.buffer_full ≡ w.buffer_full))
  unfolding send_at
  send_at-counts i ok w [] = (refl, refl, refl)
  send_at-counts zero ok w (b ∷ bs) =
      let (c, same, full) = send_next-counts ok w b in (omega (arith, c), same, full)
  send_at-counts (suc i) ok w (b ∷ bs) =
      let (c, same, full) = send_at-counts i ok w bs in (omega (arith, c), same, full)

  take_batch-counts :
      (buf : List GraphMutation) (w : Writer G)
      → w.buf ≡ buf
      → (let r = take_batch query max_buffer buf w in
          (accounted r ≡ accounted w) × (length r.buf ≤ length w.buf))
  unfolding take_batch
  take_batch-counts [] w e = (refl, omega arith)
  take_batch-counts (m ∷ ms) w e =
      (omega (arith, total-append w.in_flight (m ∷ ms), ap length e), omega arith)

  -- A step accounts for its append, and keeps the buffer within its bound.
  step-counts :
      (w : Writer G) (s : Step)
      → length w.buf ≤ max_buffer
      → (accounted (step query max_buffer w s) ≡ accounted w + appends (s ∷ []))
        × (length (step query max_buffer w s).buf ≤ max_buffer)
  unfolding step append_to
  step-counts w (Step.append m) h =
      (ground (arith, length-append w.buf (m ∷ [])), ground (arith, length-append w.buf (m ∷ [])))
  step-counts w Step.take h =
      let (c, le) = take_batch-counts w.buf w refl in (omega (arith, c), omega (arith, le, h))
  step-counts w (Step.advance i ok) h =
      let (c, same, full) = send_at-counts i ok w w.in_flight in
      (omega (arith, c, ap length same, full), omega (arith, ap length same, h))

  run-counts :
      (w : Writer G) (ss : List Step)
      → length w.buf ≤ max_buffer
      → (accounted (run query max_buffer w ss) ≡ accounted w + appends ss)
        × (length (run query max_buffer w ss).buf ≤ max_buffer)
  unfolding run
  run-counts w [] h = (omega arith, h)
  run-counts w (s ∷ ss) h =
      let (c, b) = step-counts w s h in
      let (d, le) = run-counts (step query max_buffer w s) ss b in
      (omega (arith, c, d, appends-cons s ss), le)

  -- After any sequence of appends, flushes that take the buffer, and answered or failing queries of
  -- the batches in flight, the mutations buffered, in flight, flushed, dropped for a full buffer and
  -- lost to a failed flush make up those appended, and the buffer is within its bound.
  pub run-IsAccounted :
      (g : G) (ss : List Step)
      → (accounted (run query max_buffer (new_writer g) ss) ≡ appends ss)
        × (length (run query max_buffer (new_writer g) ss).buf ≤ max_buffer)
  unfolding new_writer
  run-IsAccounted g ss =
      let (c, b) = run-counts (new_writer g) ss (omega arith) in (omega (arith, c), b)
