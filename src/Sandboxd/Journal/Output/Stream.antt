-- ===== src/Sandboxd/Journal/Output/Stream.antt =====
-- journal.rs, `append_output`: the stored output of a terminal against the stream of all the bytes that it ever accepted.
use native.Mathlib.Nat.{add-zero}
use mathlib.Core.List.{append-nil, append_assoc}
use gobrowseos.Prelude.{
  not, ◌||◌, subst, ℕ, zero, suc, ◌+◌, ◌-◌, min, ◌≤◌, ◌<◌, ◌≡◌, refl, sym, ap, ◌∙◌, true, false,
  List, [], ◌∷◌, ◌++◌, arith, leb, ◌==◌, length, length-append, take, drop, length-take,
  length-drop, take_all, drop-append, take-append-drop, if◌then◌else◌, All, ok, Bool-cases, inl,
  inr,
}
use gobrowseos.Sandboxd.Journal.Tables.{Chunk, TerminalRow, max_terminal_output_bytes}
use gobrowseos.Sandboxd.Journal.Output.{
  chunks_of, insert_ordered, insert_chunk, insert_all, append_accepted, append_row,
}

-- The rows follow one another from cursor `b` to cursor `e`, none empty and none too long.
abbrev pub Contiguous : ℕ → List Chunk → ℕ → Type 0
Contiguous b [] e = b ≡ e
Contiguous b (c ∷ cs) e =
    (c.start_cursor ≡ b)
    × (c.end_cursor ≡ b + length c.bytes)
    × (0 < length c.bytes)
    × (length c.bytes ≤ 32768)
    × Contiguous c.end_cursor cs e

abbrev pub flat : List Chunk → List ℕ
flat [] = []
flat (c ∷ cs) = c.bytes ++ flat cs

abbrev pub joined : List (List ℕ) → List ℕ
joined [] = []
joined (b ∷ bs) = b ++ joined bs

-- A piece that fits a row.
abbrev pub IsPiece : List ℕ → Type 0
IsPiece b = (0 < length b) × (length b ≤ 32768)

pub Contiguous-le : (b : ℕ) (cs : List Chunk) (e : ℕ) → Contiguous b cs e → b ≤ e
Contiguous-le b [] e h = omega arith
Contiguous-le b (c ∷ cs) e h = omega (arith, Contiguous-le c.end_cursor cs e h.4)

pub length-flat : (b : ℕ) (cs : List Chunk) (e : ℕ) → Contiguous b cs e → b + length (flat cs) ≡ e
length-flat b [] e h = omega arith
length-flat b (c ∷ cs) e h =
    omega (arith, length-flat c.end_cursor cs e h.4, length-append c.bytes (flat cs))

-- A row that begins where the rows end goes last.
insert_ordered-last :
    (b : ℕ) (cs : List Chunk) (c : Chunk)
    → Contiguous b cs c.start_cursor
    → insert_ordered c cs ≡ ok (cs ++ c ∷ [])
unfolding insert_ordered
insert_ordered-last b [] c h = refl
insert_ordered-last b (x ∷ xs) c h = ground (
  arith,
  insert_ordered-last x.end_cursor xs c h.4,
  Contiguous-le x.end_cursor xs c.start_cursor h.4,
)

Contiguous-append :
    (b : ℕ) (cs : List Chunk) (c : Chunk)
    → Contiguous b cs c.start_cursor
    → c.end_cursor ≡ c.start_cursor + length c.bytes
    → IsPiece c.bytes
    → Contiguous b (cs ++ c ∷ []) c.end_cursor
Contiguous-append b [] c h e p = (sym h, omega arith, p.0, p.1, refl)
Contiguous-append b (x ∷ xs) c h e p =
    (h.0, h.1, h.2, h.3, Contiguous-append x.end_cursor xs c h.4 e p)

flat-append : (xs ys : List Chunk) → flat (xs ++ ys) ≡ flat xs ++ flat ys
flat-append [] ys = refl
flat-append (x ∷ xs) ys = rw (flat-append xs ys) (sym (append_assoc x.bytes (flat xs) (flat ys)))

insert_chunk-last :
    (b : ℕ) (cs : List Chunk) (c : Chunk)
    → Contiguous b cs c.start_cursor
    → c.end_cursor ≡ c.start_cursor + length c.bytes
    → IsPiece c.bytes
    → insert_chunk c cs ≡ ok (cs ++ c ∷ [])
unfolding insert_chunk
insert_chunk-last b cs c h e p = ground (arith, insert_ordered-last b cs c h)

-- Inserting the pieces extends the rows by the pieces joined, and never fails.
insert_all_lem :
    (ps : List (List ℕ)) (b e : ℕ) (cs : List Chunk)
    → Contiguous b cs e
    → All IsPiece ps
    → (cs' : List Chunk) × (insert_all ps e cs ≡ ok (cs', e + length (joined ps)))
      × Contiguous b cs' (e + length (joined ps))
      × (flat cs' ≡ flat cs ++ joined ps)
unfolding insert_all
insert_all_lem [] b e cs h a =
    (cs, ap (λ n. ok (cs, n)) (omega arith), rw add-zero h, sym (append-nil (flat cs)))
insert_all_lem (p ∷ ps) b e cs h a =
    let row : Chunk = record { start_cursor = e; end_cursor = e + length p; bytes = p } in
    let longer = Contiguous-append b cs row h refl a.0 in
    let (cs', run, contiguous, kept) =
      insert_all_lem ps b (e + length p) (cs ++ row ∷ []) longer a.1 in
    let total : e + length p + length (joined ps) ≡ e + length (p ++ joined ps) =
      omega (arith, length-append p (joined ps)) in
    (
      cs',
      rw (insert_chunk-last b cs row h refl a.0) (run ∙ ap (λ n. ok (cs', n)) total),
      rw total at contiguous,
      kept
          ∙ ap (λ l. l ++ joined ps)
              (flat-append cs (row ∷ []) ∙ ap (λ l. flat cs ++ l) (append-nil p))
          ∙ append_assoc (flat cs) p (joined ps),
    )

joined-chunks_of :
    (fuel n : ℕ) (bytes : List ℕ)
    → 0 < n
    → length bytes ≤ fuel
    → joined (chunks_of fuel n bytes) ≡ bytes
unfolding chunks_of
joined-chunks_of zero n [] p h = refl
joined-chunks_of zero n (b ∷ bytes) p h = absurd (omega arith)
joined-chunks_of (suc fuel) n [] p h = refl
joined-chunks_of (suc fuel) n (b ∷ bytes) p h =
    ap (λ l. take n (b ∷ bytes) ++ l)
      (joined-chunks_of fuel n (drop n (b ∷ bytes)) p (omega (arith, length-drop n (b ∷ bytes))))
    ∙ take-append-drop n (b ∷ bytes)

chunks_of-IsPiece :
    (fuel n : ℕ) (bytes : List ℕ) → 0 < n → n ≤ 32768 → All IsPiece (chunks_of fuel n bytes)
unfolding chunks_of
chunks_of-IsPiece zero n bytes p q = tt
chunks_of-IsPiece (suc fuel) n [] p q = tt
chunks_of-IsPiece (suc fuel) n (b ∷ bytes) p q = (
  (omega (arith, length-take n (b ∷ bytes)), omega (arith, length-take n (b ∷ bytes))),
  chunks_of-IsPiece fuel n (drop n (b ∷ bytes)) p q,
)

-- What the row of a terminal says of the stream of bytes that it has accepted: the cursors count
-- bytes of the stream, and the rows hold all of it that was not acknowledged.
pub record Holds (t : TerminalRow) (stream : List ℕ) : Type 0 where
  pub total : length stream ≡ t.output_end
  pub counted : t.output_bytes ≡ t.output_end
  pub limited : t.output_end ≤ max_terminal_output_bytes
  pub acked : t.output_start ≡ t.ack_cursor
  pub acked_within : t.ack_cursor ≤ t.output_end
  pub base : ℕ
  pub base_acked : base ≤ t.output_start
  pub contiguous : Contiguous base t.chunks t.output_end
  pub kept : flat t.chunks ≡ drop base stream

-- How many bytes an append accepts.
abbrev pub accepted_of : TerminalRow → List ℕ → ℕ
accepted_of t bytes =
    if t.output_complete then min (length bytes) (max_terminal_output_bytes - t.output_bytes) else 0

-- The row after an append that found the output open.
abbrev grown : TerminalRow → ℕ → List ℕ → List Chunk → TerminalRow
grown t n bytes rows = record t {
  output_end = t.output_end + n;
  output_bytes = t.output_bytes + n;
  output_complete = if not (n == length bytes) then false else t.output_complete;
  chunks = rows;
}

grown-Holds :
    (t : TerminalRow) (stream bytes : List ℕ) (n : ℕ) (rows : List Chunk) (h : Holds t stream)
    → n ≤ length bytes
    → t.output_end + n ≤ max_terminal_output_bytes
    → Contiguous h.base rows (t.output_end + n)
    → flat rows ≡ flat t.chunks ++ take n bytes
    → Holds (grown t n bytes rows) (stream ++ take n bytes)
grown-Holds t stream bytes n rows h fits room contiguous kept = record {
  total = omega (arith, length-append stream (take n bytes), length-take n bytes, h.total);
  counted = omega (arith, h.counted);
  limited = room;
  acked = h.acked;
  acked_within = omega (arith, h.acked_within);
  base = h.base;
  base_acked = h.base_acked;
  contiguous = contiguous;
  kept =
      let inside : h.base - length stream ≡ 0 =
        omega (arith, h.base_acked, h.acked, h.acked_within, h.total) in
      kept
      ∙ ap (λ l. l ++ take n bytes) h.kept
      ∙ sym (
          drop-append h.base stream (take n bytes)
          ∙ ap (λ k. drop h.base stream ++ drop k (take n bytes)) inside);
}

closed-Holds :
    (t : TerminalRow) (stream : List ℕ)
    → Holds t stream
    → Holds (record t { output_complete = false }) stream
closed-Holds t stream h = record {
  total = h.total;
  counted = h.counted;
  limited = h.limited;
  acked = h.acked;
  acked_within = h.acked_within;
  base = h.base;
  base_acked = h.base_acked;
  contiguous = h.contiguous;
  kept = h.kept;
}

append_accepted_lem :
    (t : TerminalRow) (stream bytes : List ℕ) (n : ℕ)
    → Holds t stream
    → n ≤ length bytes
    → t.output_bytes + n ≤ max_terminal_output_bytes
    → (rows : List Chunk) × (append_accepted t bytes n ≡ ok (grown t n bytes rows, n))
      × Holds (grown t n bytes rows) (stream ++ take n bytes)
unfolding append_accepted
append_accepted_lem t stream bytes n h fits room =
    let taken : length (take n bytes) ≡ n = omega (arith, length-take n bytes) in
    let pieces = chunks_of n 32768 (take n bytes) in
    let whole = joined-chunks_of n 32768 (take n bytes) (omega arith) (omega (arith, taken)) in
    let (rows, run, contiguous, kept) =
      insert_all_lem pieces h.base t.output_end t.chunks h.contiguous
        (chunks_of-IsPiece n 32768 (take n bytes) (omega arith) (omega arith)) in
    let added : length (joined pieces) ≡ n = ap length whole ∙ taken in
    (
      rows,
      rw (run ∙ ap (λ k. ok (rows, t.output_end + k)) added),
      grown-Holds t stream bytes n rows h fits (omega (arith, h.counted)) (rw added at contiguous)
          (rw whole at kept),
    )

-- An append to a row that holds a stream never fails: while the output is complete it accepts as
-- many bytes as fit below the limit, and otherwise none; the row then holds the stream with those
-- bytes behind it, and if it is still marked complete, they are all the bytes given.
pub append_row_refines :
    (t : TerminalRow) (stream bytes : List ℕ)
    → Holds t stream
    → (t' : TerminalRow) × (append_row t bytes ≡ ok (t', accepted_of t bytes))
      × Holds t' (stream ++ take (accepted_of t bytes) bytes)
      × (t'.output_complete ≡ true → take (accepted_of t bytes) bytes ≡ bytes)
unfolding append_row
append_row_refines t stream bytes h =
    elim (Bool-cases (not t.output_complete || leb max_terminal_output_bytes t.output_bytes)) [
      | inl shut ↦
          let none_fits : accepted_of t bytes ≡ 0 = ground arith in
          (
            record t { output_complete = false },
            rw shut (rw none_fits),
            rw none_fits (rw append-nil (closed-Holds t stream h)),
            λ e. cc,
          )
      | inr opened ↦
          let n = min (length bytes) (max_terminal_output_bytes - t.output_bytes) in
          let fits : accepted_of t bytes ≡ n = ground arith in
          let (rows, run, held) =
            append_accepted_lem t stream bytes n h (omega arith) (ground arith) in
          (
            grown t n bytes rows,
            rw opened (run ∙ ap (λ k. ok (grown t n bytes rows, k)) (sym fits)),
            subst (λ k. Holds (grown t n bytes rows) (stream ++ take k bytes)) (sym fits) held,
            λ e. subst (λ k. take k bytes ≡ bytes) (sym fits) (take_all n bytes (ground arith)),
          )
    ]
