-- ===== src/Sandboxd/Journal/Output/Acks.antt =====
-- journal.rs, `ack_output`: acknowledging output, against the stream of all the bytes that were accepted.
use native.Mathlib.Nat.{sub_self}
use gobrowseos.Prelude.{
  ℕ, ◌-◌, max, ◌≤◌, ◌<◌, ◌≡◌, refl, sym, ap, ◌∙◌, List, [], ◌∷◌, ◌++◌, arith, ltb, length, drop,
  drop_nil, drop_all, drop-append, drop-drop, ok, Bool-cases, inl, inr,
}
use gobrowseos.Sandboxd.Journal.Tables.{Chunk, TerminalRow}
use gobrowseos.Sandboxd.Journal.Output.{rows_after, ack_row}
use gobrowseos.Sandboxd.Journal.Output.Stream.{Contiguous, flat, Holds}

-- Rows behind the cursor are all kept.
rows_after_all :
    (s b : ℕ) (cs : List Chunk) (e : ℕ) → Contiguous b cs e → s < b → rows_after s cs ≡ cs
unfolding rows_after
rows_after_all s b [] e h p = refl
rows_after_all s b (c ∷ cs) e h p = ground (arith, rows_after_all s c.end_cursor cs e h.4)

-- The rows that end behind a cursor hold the bytes from some place at or before it.
pub rows_after_lem :
    (s b : ℕ) (cs : List Chunk) (e : ℕ)
    → Contiguous b cs e
    → b ≤ s
    → (b' : ℕ) × (b ≤ b')
      × (b' ≤ s)
      × Contiguous b' (rows_after s cs) e
      × (flat (rows_after s cs) ≡ drop (b' - b) (flat cs))
unfolding rows_after
rows_after_lem s b [] e h p = (b, omega arith, p, h, sym (drop_nil (b - b)))
rows_after_lem s b (c ∷ cs) e h p = elim (Bool-cases (ltb s c.end_cursor)) [
  | inl kept ↦
      let same = rows_after_all s c.end_cursor cs e h.4 (ground arith) in
      (b, omega arith, p, rw kept (rw same h), rw kept (rw same (rw sub_self refl)))
  | inr dropped ↦
      let (b', above, below, contiguous, held) =
        rows_after_lem s c.end_cursor cs e h.4 (ground arith) in
      (
        b',
        omega (arith, h.1),
        below,
        rw dropped contiguous,
        rw dropped (
            held
            ∙ sym (
                drop-append (b' - b) c.bytes (flat cs)
                ∙ ap (λ l. l ++ drop (b' - b - length c.bytes) (flat cs))
                    (drop_all (b' - b) c.bytes (omega (arith, h.1)))
                ∙ ap (λ k. drop k (flat cs)) (omega (arith, h.1)))),
      )
]

-- An acknowledgement up to a cursor within the output, on a row that holds a stream, succeeds: the
-- acknowledged cursor becomes the later of the two, the end of the output stays, and the row still
-- holds the stream.
pub ack_row_refines :
    (t : TerminalRow) (stream : List ℕ) (cursor : ℕ)
    → Holds t stream
    → cursor ≤ t.output_end
    → (t' : TerminalRow) × (ack_row t cursor ≡ ok (t', max cursor t.ack_cursor))
      × Holds t' stream
      × (t'.ack_cursor ≡ max cursor t.ack_cursor)
      × (t'.output_end ≡ t.output_end)
unfolding ack_row
ack_row_refines t stream cursor h within =
    let ack = max cursor t.ack_cursor in
    let (b, above, below, contiguous, held) =
      rows_after_lem ack h.base t.chunks t.output_end h.contiguous
        (omega (arith, h.base_acked, h.acked)) in
    let t' : TerminalRow = record t {
      ack_cursor = ack;
      output_start = max t.output_start ack;
      chunks = rows_after ack t.chunks;
    } in
    (
      t',
      ground (arith, h.limited),
      record {
        total = h.total;
        counted = h.counted;
        limited = h.limited;
        acked = omega (arith, h.acked);
        acked_within = omega (arith, h.acked_within);
        base = b;
        base_acked = omega (arith, below);
        contiguous = contiguous;
        kept =
            held
            ∙ ap (λ l. drop (b - h.base) l) h.kept
            ∙ drop-drop (b - h.base) h.base stream
            ∙ ap (λ k. drop k stream) (omega (arith, above));
      },
      refl,
      refl,
    )
