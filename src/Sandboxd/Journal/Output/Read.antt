-- ===== src/Sandboxd/Journal/Output/Read.antt =====
-- journal.rs, `read_output`: reading output, against the stream of all the bytes that were accepted.
use native.Mathlib.Nat.{sub-zero}
use mathlib.Core.List.{append-nil, append_assoc}
use gobrowseos.Prelude.{
  ℕ, ◌+◌, ◌-◌, min, ◌≤◌, ◌<◌, ◌≡◌, refl, sym, ap, ◌∙◌, List, [], ◌∷◌, ◌++◌, arith, ltb, leb, length,
  length-append, take, drop, length-take, length-drop, take_nil, drop_nil, take_all, drop_all,
  take-append, drop-append, drop-drop, i64_max, Result, ok, Bool-cases, lt→ltb, inl, inr,
}
use gobrowseos.Sandboxd.Journal.Tables.{Chunk, TerminalRow, JournalError}
use gobrowseos.Sandboxd.Journal.Output.{rows_after, read_row, read_rows}
use gobrowseos.Sandboxd.Journal.Output.Stream.{Contiguous, Contiguous-le, flat, Holds}
use gobrowseos.Sandboxd.Journal.Output.Acks.{rows_after_lem}

read_rows_nil :
    (limit : ℕ) (bytes : List ℕ) (next : ℕ) → read_rows limit [] bytes next ≡ ok (bytes, next)
unfolding read_rows
read_rows_nil limit bytes next = refl

-- Nothing is read past the limit.
read_rows_full :
    (limit : ℕ) (cs : List Chunk) (bytes : List ℕ) (next : ℕ)
    → limit ≤ length bytes
    → read_rows limit cs bytes next ≡ ok (bytes, next)
unfolding read_rows
read_rows_full limit [] bytes next h = refl
read_rows_full limit (c ∷ cs) bytes next h = ground arith

-- A row that overlaps the cursor gives what is left of it, up to the limit.
read_row_lem :
    (limit b : ℕ) (c : Chunk) (cs : List Chunk) (e : ℕ) (bytes : List ℕ) (next : ℕ)
    → Contiguous b (c ∷ cs) e
    → e ≤ i64_max
    → b ≤ next
    → next < c.end_cursor
    → (n : ℕ) × (n ≡ min (limit - length bytes) (c.end_cursor - next))
      × (read_row limit c bytes next ≡ ok (bytes ++ take n (drop (next - b) c.bytes), next + n))
read_row_lem limit b c cs e bytes next h bound low high =
    let n = min (limit - length bytes) (length c.bytes - (next - c.start_cursor)) in
    let le = Contiguous-le c.end_cursor cs e h.4 in
    let same : next - b ≡ next - c.start_cursor = omega (arith, h.0) in
    (n, omega (arith, h.0, h.1), rw same (ground (arith, le)))

-- What is taken behind a place within the first of two lists.
take-drop-append :
    (n k : ℕ) (xs ys : List ℕ)
    → k ≤ length xs
    → take n (drop k (xs ++ ys)) ≡ take n (drop k xs) ++ take (n - (length xs - k)) ys
take-drop-append n k xs ys h =
    let inside : k - length xs ≡ 0 = omega (arith, h) in
    ap (take n) (drop-append k xs ys ∙ ap (λ j. drop k xs ++ drop j ys) inside)
    ∙ take-append n (drop k xs) ys
    ∙ ap (λ j. take n (drop k xs) ++ take (n - j) ys) (length-drop k xs)

-- A piece that takes all of the first list is followed by what is taken of the second.
take_whole :
    (n m k j r : ℕ) (xs ys : List ℕ)
    → k ≤ length xs
    → n ≡ length xs - k
    → n ≤ m
    → j ≡ 0
    → r ≡ m - n
    → take n (drop k xs) ++ take r (drop j ys) ≡ take m (drop k (xs ++ ys))
take_whole n m k j r xs ys low size fits start rest =
    let all : take n (drop k xs) ≡ take m (drop k xs) =
      take_all n (drop k xs) (omega (arith, length-drop k xs, size))
      ∙ sym (take_all m (drop k xs) (omega (arith, length-drop k xs, size))) in
    let left : r ≡ m - (length xs - k) = omega (arith, size, rest) in
    ap (λ l. l ++ take r (drop j ys)) all
    ∙ ap (λ i. take m (drop k xs) ++ take r (drop i ys)) start
    ∙ ap (λ i. take m (drop k xs) ++ take i ys) left
    ∙ sym (take-drop-append m k xs ys low)

-- A piece that ends within the first list takes nothing of the second.
take_part :
    (n k : ℕ) (xs ys : List ℕ)
    → k ≤ length xs
    → n ≤ length xs - k
    → take n (drop k xs) ≡ take n (drop k (xs ++ ys))
take_part n k xs ys low fits =
    let nothing : n - (length xs - k) ≡ 0 = omega (arith, fits) in
    sym (
      take-drop-append n k xs ys low
      ∙ ap (λ i. take n (drop k xs) ++ take i ys) nothing
      ∙ append-nil (take n (drop k xs)))

drop_behind :
    (k j : ℕ) (xs ys : List ℕ) → length xs ≤ k → j ≡ k - length xs → drop j ys ≡ drop k (xs ++ ys)
drop_behind k j xs ys past left = sym (
    drop-append k xs ys
    ∙ ap (λ l. l ++ drop (k - length xs) ys) (drop_all k xs past)
    ∙ ap (λ i. drop i ys) (sym left))

-- One row that is read, then the others.
read_rows_step :
    (limit : ℕ) (c : Chunk) (cs : List Chunk) (bytes : List ℕ) (next : ℕ) (bytes' : List ℕ)
    (next' : ℕ)
    → length bytes < limit
    → read_row limit c bytes next ≡ ok (bytes', next')
    → read_rows limit (c ∷ cs) bytes next ≡ read_rows limit cs bytes' next'
unfolding read_rows
read_rows_step limit c cs bytes next bytes' next' more run =
    rw (lt→ltb (length bytes) limit more) (rw run refl)

read_eq :
    {xs ys : List ℕ} {m n : ℕ}
    → xs ≡ ys
    → m ≡ n
    → ◌≡◌ {A = Result (List ℕ × ℕ) JournalError} (ok (xs, m)) (ok (ys, n))
read_eq e f = rw (e, f) refl

-- A row that ends at or before the cursor is skipped.
read_row_behind :
    (limit b : ℕ) (c : Chunk) (cs : List Chunk) (e : ℕ) (bytes : List ℕ) (next : ℕ)
    → Contiguous b (c ∷ cs) e
    → c.end_cursor ≤ next
    → read_row limit c bytes next ≡ ok (bytes, next)
read_row_behind limit b c cs e bytes next h p = ground (arith, h.0, h.1, h.3)

-- The rows give the bytes behind the cursor, up to the limit.
read_rows_lem :
    (limit b : ℕ) (cs : List Chunk) (e : ℕ) (bytes : List ℕ) (next : ℕ)
    → Contiguous b cs e
    → e ≤ i64_max
    → b ≤ next
    → next ≤ e
    → read_rows limit cs bytes next
      ≡ ok (
        bytes ++ take (limit - length bytes) (drop (next - b) (flat cs)),
        next + min (limit - length bytes) (e - next),
      )
read_rows_lem limit b [] e bytes next h bound low high =
    read_rows_nil limit bytes next
    ∙ read_eq
        (sym (
          ap (λ l. bytes ++ l)
            (ap (take (limit - length bytes)) (drop_nil (next - b))
              ∙ take_nil (limit - length bytes))
          ∙ append-nil bytes))
        (omega arith)
read_rows_lem limit b (c ∷ cs) e bytes next h bound low high =
    elim (Bool-cases (ltb (length bytes) limit)) [
      | inr full ↦
          let none_left : limit - length bytes ≡ 0 = ground arith in
          read_rows_full limit (c ∷ cs) bytes next (ground arith)
          ∙ read_eq
              (sym (
                ap (λ k. bytes ++ take k (drop (next - b) (c.bytes ++ flat cs))) none_left
                ∙ append-nil bytes))
              (omega arith)
      | inl more ↦ elim (Bool-cases (ltb next c.end_cursor)) [
        | inr behind ↦
            read_rows_step limit c cs bytes next bytes next (ground arith)
              (read_row_behind limit b c cs e bytes next h (ground arith))
            ∙ read_rows_lem limit c.end_cursor cs e bytes next h.4 bound (ground arith) high
            ∙ read_eq
                (ap (λ l. bytes ++ take (limit - length bytes) l)
                  (drop_behind (next - b) (next - c.end_cursor) c.bytes (flat cs)
                    (ground (arith, h.1)) (ground (arith, h.1))))
                refl
        | inl within ↦
            let (n, size, run) =
              read_row_lem limit b c cs e bytes next h bound low (ground arith) in
            elim (Bool-cases (leb (c.end_cursor - next) (limit - length bytes))) [
              | inl whole ↦
                  let piece = take n (drop (next - b) c.bytes) in
                  let le = Contiguous-le c.end_cursor cs e h.4 in
                  let gap : n ≡ c.end_cursor - next = ground (arith, size) in
                  let counted : length (bytes ++ piece) ≡ length bytes + n = omega (
                    arith,
                    length-append bytes piece,
                    length-take n (drop (next - b) c.bytes),
                    length-drop (next - b) c.bytes,
                    gap,
                    h.1,
                  ) in
                  read_rows_step limit c cs bytes next (bytes ++ piece) (next + n) (ground arith)
                    run
                  ∙ read_rows_lem limit c.end_cursor cs e (bytes ++ piece) (next + n) h.4 bound
                      (ground (arith, gap)) (ground (arith, gap, le))
                  ∙ read_eq
                      (append_assoc bytes piece (
                          take (limit - length (bytes ++ piece))
                            (drop (next + n - c.end_cursor) (flat cs)))
                        ∙ ap (λ l. bytes ++ l)
                            (take_whole n (limit - length bytes) (next - b)
                              (next + n - c.end_cursor) (limit - length (bytes ++ piece)) c.bytes
                              (flat cs) (ground (arith, h.1)) (ground (arith, gap, h.1))
                              (ground (arith, gap)) (ground (arith, gap)) (omega (arith, counted))))
                      (ground (arith, gap, counted, le))
              | inr part ↦
                  let piece = take n (drop (next - b) c.bytes) in
                  let le = Contiguous-le c.end_cursor cs e h.4 in
                  let rest : n ≡ limit - length bytes = ground (arith, size) in
                  let counted : length (bytes ++ piece) ≡ length bytes + n = ground (
                    arith,
                    length-append bytes piece,
                    length-take n (drop (next - b) c.bytes),
                    length-drop (next - b) c.bytes,
                    rest,
                    h.1,
                  ) in
                  read_rows_step limit c cs bytes next (bytes ++ piece) (next + n) (ground arith)
                    run
                  ∙ read_rows_full limit cs (bytes ++ piece) (next + n)
                      (ground (arith, counted, rest))
                  ∙ read_eq
                      (ap (λ l. bytes ++ l)
                        (take_part n (next - b) c.bytes (flat cs) (ground (arith, h.1))
                            (ground (arith, h.1, rest))
                          ∙ ap (λ i. take i (drop (next - b) (c.bytes ++ flat cs))) rest))
                      (ground (arith, rest, le))
            ]
      ]
    ]

-- Reading the rows behind a cursor gives the bytes of the stream behind it, up to the limit.
pub read_rows_refines :
    (limit : ℕ) (t : TerminalRow) (stream : List ℕ) (start : ℕ)
    → Holds t stream
    → t.output_start ≤ start
    → start ≤ t.output_end
    → read_rows limit (rows_after start t.chunks) [] start
      ≡ ok (take limit (drop start stream), start + min limit (t.output_end - start))
read_rows_refines limit t stream start h low high =
    let (b, above, below, contiguous, held) =
      rows_after_lem start h.base t.chunks t.output_end h.contiguous
        (omega (arith, h.base_acked, low)) in
    let dropped : drop (start - b) (flat (rows_after start t.chunks)) ≡ drop start stream =
      ap (drop (start - b)) (held ∙ ap (drop (b - h.base)) h.kept)
      ∙ drop-drop (start - b) (b - h.base) (drop h.base stream)
      ∙ drop-drop (b - h.base + (start - b)) h.base stream
      ∙ ap (λ k. drop k stream) (omega (arith, above, below)) in
    read_rows_lem limit b (rows_after start t.chunks) t.output_end [] start contiguous
      (omega (arith, h.limited)) below high
    ∙ read_eq (rw (sub-zero, dropped) refl) (rw sub-zero refl)
