-- ===== src/Sandboxd/Journal/Output.antt =====
-- journal.rs, `append_output`, `read_output` and `ack_output`: the output of a terminal, appended in
-- chunks under a limit, read from a cursor, acknowledged up to a cursor. Cursors and counts are `i64`
-- columns: the limit keeps them far below their maximum.
pub mod Stream
pub mod Acks
pub mod Read
pub mod Delivery
use gobrowseos.Prelude.{
  ℕ, zero, suc, ◌+◌, ◌-◌, min, max, Bool, true, false, not, ◌&&◌, ◌||◌, Option, none, some, List,
  [], ◌∷◌, ◌++◌, leb, ltb, ◌==◌, if◌then◌else◌, length, take, drop, Assoc, lookup, update, u64_max,
  i64_max, checked_add, Result, ok, err, ◌>>=◌,
}
use gobrowseos.Sandboxd.Journal.Tables.{
  JournalError, sqlite, corrupt, conflict, Chunk, TerminalRow, Journal, max_terminal_output_bytes,
  max_terminal_output_chunk_bytes,
}
use gobrowseos.Sandboxd.Journal.Terminals.{TerminalRecord, query_record}

-- `slice.chunks(n)`, for a fuel of at least the length.
pub chunks_of : ℕ → ℕ → List ℕ → List (List ℕ)
chunks_of zero n bytes = []
chunks_of (suc fuel) n [] = []
chunks_of (suc fuel) n (b ∷ bytes) = take n (b ∷ bytes) ∷ chunks_of fuel n (drop n (b ∷ bytes))

-- A row goes where its cursor stands; the same cursor twice violates the primary key.
abbrev pub place_chunk :
    Chunk → Chunk → List Chunk → Result (List Chunk) JournalError → Result (List Chunk) JournalError
place_chunk c x xs rest =
    if ltb c.start_cursor x.start_cursor
    then ok (c ∷ x ∷ xs)
    else if c.start_cursor == x.start_cursor
    then err sqlite
    else (do later ← rest; ok (x ∷ later))

pub insert_ordered : Chunk → List Chunk → Result (List Chunk) JournalError
insert_ordered c [] = ok (c ∷ [])
insert_ordered c (x ∷ xs) = place_chunk c x xs (insert_ordered c xs)

-- The INSERT of one chunk, with the CHECKs of the table.
pub insert_chunk : Chunk → List Chunk → Result (List Chunk) JournalError
insert_chunk c rows =
    if ltb c.start_cursor c.end_cursor && leb (length c.bytes) 32768
    then insert_ordered c rows
    else err sqlite

-- The loop over the chunks of the accepted bytes.
pub insert_all : List (List ℕ) → ℕ → List Chunk → Result (List Chunk × ℕ) JournalError
insert_all [] cursor rows = ok (rows, cursor)
insert_all (b ∷ bs) cursor rows =
    let next = cursor + length b in
    do
      rows' ← insert_chunk (record { start_cursor = cursor; end_cursor = next; bytes = b }) rows
      insert_all bs next rows'

-- `append_output` on the row of the terminal, once it is known how many bytes are accepted.
pub append_accepted : TerminalRow → List ℕ → ℕ → Result (TerminalRow × ℕ) JournalError
append_accepted t bytes accepted =
    let pieces = chunks_of accepted max_terminal_output_chunk_bytes (take accepted bytes) in
    let overflowed = not (accepted == length bytes) in
    do
      (rows, cursor) ← insert_all pieces t.output_end t.chunks
      ok (
        record t {
          output_end = cursor;
          output_bytes = t.output_bytes + accepted;
          output_complete = if overflowed then false else t.output_complete;
          chunks = rows;
        },
        accepted,
      )

-- `append_output` on the row of the terminal.
pub append_row : TerminalRow → List ℕ → Result (TerminalRow × ℕ) JournalError
append_row t bytes =
    if not t.output_complete || leb max_terminal_output_bytes t.output_bytes
    then ok (record t { output_complete = false }, 0)
    else append_accepted t bytes (min (length bytes) (max_terminal_output_bytes - t.output_bytes))

-- `WHERE end_cursor > ?2`, in the order of the rows.
pub rows_after : ℕ → List Chunk → List Chunk
rows_after start [] = []
rows_after start (c ∷ cs) =
    let rest = rows_after start cs in if ltb start c.end_cursor then c ∷ rest else rest

-- One row of the read loop: what has been read and the next cursor.
abbrev pub read_row : ℕ → Chunk → List ℕ → ℕ → Result (List ℕ × ℕ) JournalError
read_row limit c bytes next =
    let offset = next - c.start_cursor in
    let count = min (limit - length bytes) (length c.bytes - offset) in
    if not (c.end_cursor - c.start_cursor == length c.bytes)
      || ltb max_terminal_output_chunk_bytes (length c.bytes)
    then err corrupt
    else if leb (length c.bytes) offset
    then ok (bytes, next)
    else elim (checked_add u64_max next count) [
      | none ↦ err corrupt
      | some next' ↦ ok (bytes ++ take count (drop offset c.bytes), next')
    ]

pub read_rows : ℕ → List Chunk → List ℕ → ℕ → Result (List ℕ × ℕ) JournalError
read_rows limit [] bytes next = ok (bytes, next)
read_rows limit (c ∷ cs) bytes next =
    let rest =
      read_row limit c bytes next >>= (λ (bytes', next'). read_rows limit cs bytes' next') in
    if ltb (length bytes) limit then rest else ok (bytes, next)

pub record OutputRead : Type 0 where
  pub start_cursor : ℕ
  pub next_cursor : ℕ
  pub bytes : List ℕ
  pub terminal : TerminalRecord

-- `to_i64`.
abbrev pub to_i64 : ℕ → Result ℕ JournalError
to_i64 n = if leb n i64_max then ok n else err corrupt

-- `ack_output` on the row of the terminal.
pub ack_row : TerminalRow → ℕ → Result (TerminalRow × ℕ) JournalError
unfolding rows_after
ack_row t cursor =
    if ltb i64_max cursor
    then err corrupt
    else if ltb t.output_end cursor
    then err conflict
    else (let ack = max cursor t.ack_cursor in
        ok (
          record t {
            ack_cursor = ack;
            output_start = max t.output_start ack;
            chunks = rows_after ack t.chunks;
          },
          ack,
        ))

-- The rows of `output_chunks` that refer to a terminal.
abbrev pub stored_chunks : Option TerminalRow → List Chunk
stored_chunks none = []
stored_chunks (some t) = t.chunks

module _ {Blob : Type 0} where
  -- The write of a row that a transaction commits; an error commits nothing.
  abbrev pub commit {ℓ} :
      {A : Type ℓ}
      → Journal Blob
      → ℕ
      → Result (TerminalRow × A) JournalError
      → Journal Blob × Result A JournalError
  commit j id (ok (t, a)) = (record j { terminals = update id t j.terminals }, ok a)
  commit j id (err e) = (j, err e)

  unfoldable pub append_output : Journal Blob → ℕ → List ℕ → Journal Blob × Result ℕ JournalError
  append_output j id bytes = elim (lookup id j.terminals) [
    | none ↦ (j, err sqlite)
    | some t ↦ commit j id (append_row t bytes)
  ]

  unfoldable pub ack_output : Journal Blob → ℕ → ℕ → Journal Blob × Result ℕ JournalError
  ack_output j id cursor = elim (lookup id j.terminals) [
    | none ↦ (j, err sqlite)
    | some t ↦ commit j id (ack_row t cursor)
  ]

  unfoldable pub read_output : Journal Blob → ℕ → ℕ → ℕ → Result OutputRead JournalError
  read_output j id after limit = do
    terminal ← query_record j id
    if ltb terminal.output_end_cursor after then err conflict else do
      let start = max after terminal.output_start_cursor
      first ← to_i64 start
      (bytes, next) ←
          read_rows limit (rows_after first (stored_chunks (lookup id j.terminals))) [] start
      ok (record { start_cursor = start; next_cursor = next; bytes = bytes; terminal = terminal })
