-- ===== src/Db/System/Numbered/Written.antt =====
-- The steps of the goroutines of db/postgres.go and the rows of the table of blocks.
use blkchain.Db.System.Numbered.Columns.{columns, named, IsKept, columns-numbered, to_write-IsKept}
use blkchain.Db.System.Numbered.Whole.{
  Whole, retodo, send-Whole, write-Whole, next-Whole, last-Whole,
}
use blkchain.Db.System.Ends.{Ends, Ends-if_any, Ends-unless_any, Ends-else, Run-keeps}
use blkchain.Prelude.{
  ℕ, ◌+◌, ◌%◌, ◌^◌, ◌≡◌, refl, sym, ◌∙◌, true, false, ◌||◌, Option, none, some, List, [], ◌∷◌, ◌++◌,
  map, append-nil, ltb, length, arith,
}
use blkchain.Io.{Result, ok, err}
use blkchain.TxIdCache.{TxIdCache}
use blkchain.Db.{BlockRecSync, BlockRow, TxInRec, Msg}
use blkchain.Db.Table.{begin}
use blkchain.Db.Table.Works
use blkchain.Db.Table.Works.{renew}
use blkchain.Db.Writers.{TableName, blocks, block_row, write_tx_in, commit_tx_ins, TxInTables}
use blkchain.Db.Writers.Complete.{rows}
use blkchain.Db.Worker.{
  Action, send, await, reply, do_tx, Channel, block_ch, tx_ch, tx_in_ch, tx_out_ch, Carried,
  Heights, to_write,
}
use blkchain.Db.System.{
  Config, Stage, stage, set_stage, Tables, State, Turn, worker, writer, answer, receive,
  last_commit, next_block, act, work, hear, write, step, Run, begin_all, start, is_some,
}
use blkchain.Db.System.Progress.{IsDone}
use blkchain.Db.System.Numbered.{numbered, HaveHeights, sent, sent-transaction}

abbrev pub with_db : Config → Config
with_db cfg = record cfg { has_db = true }

module _ (cfg : Config) (w : (name : TableName) (n : ℕ) → cfg.works name n ≡ true)
    (goal : List BlockRow) where
  abbrev IsWhole : State → Type 0
  IsWhole s =
      Whole cfg w goal s.tables.t_blocks s.stages.s_block.queue s.todo s.block_id s.input
        s.stages.s_block.returned

  abbrev KeepsWhole : Option State → Type 0
  KeepsWhole o = Ends IsWhole o

  module _ (s : State) where
    act-Whole :
        (a : Action) (rest : List Action)
        → Whole cfg w goal s.tables.t_blocks s.stages.s_block.queue
            (a ∷ rest)
            s.block_id
            s.input
            s.stages.s_block.returned
        → KeepsWhole (act (with_db cfg) a rest s)
    unfolding act sent
    act-Whole (send block_ch m) rest i =
        Ends-if_any IsWhole (ltb (length s.stages.s_block.queue) 2) _ (send-Whole cfg w goal m i)
    act-Whole (send tx_ch m) rest i =
        Ends-if_any IsWhole (ltb (length s.stages.s_tx.queue) 64) _ (retodo cfg w goal i rest refl)
    act-Whole (send tx_in_ch m) rest i =
        Ends-if_any IsWhole (ltb (length s.stages.s_tx_in.queue) 64) _
          (retodo cfg w goal i rest refl)
    act-Whole (send tx_out_ch m) rest i =
        Ends-if_any IsWhole (ltb (length s.stages.s_tx_out.queue) 64) _
          (retodo cfg w goal i rest refl)
    act-Whole await rest i = tt
    act-Whole (reply r) rest i = retodo cfg w goal i rest refl
    act-Whole (do_tx b n tx) rest i =
        let id = (s.tx_id + 1) % 2 ^ 64 in
        retodo cfg w goal i _ (sent-transaction cfg.sha256 cfg.first s.tables.cache id b n tx rest)

    next_block-Whole :
        (hs : Heights) (bs : List BlockRecSync)
        → s.todo ≡ []
        → s.input ≡ bs
        → Whole cfg w goal s.tables.t_blocks s.stages.s_block.queue [] s.block_id bs
            s.stages.s_block.returned
        → KeepsWhole (next_block (with_db cfg) hs bs s)
    unfolding next_block
    next_block-Whole hs [] e f i =
        Ends-unless_any IsWhole s.closed (record s { closed = true }) (rw (e, f) i)
    next_block-Whole hs (b ∷ bs) e f i = next-Whole cfg w goal hs b i

    work-Whole :
        (hs : Heights) (todo : List Action)
        → s.todo ≡ todo
        → Whole cfg w goal s.tables.t_blocks s.stages.s_block.queue todo s.block_id s.input
            s.stages.s_block.returned
        → KeepsWhole (work (with_db cfg) hs todo s)
    unfolding work
    work-Whole hs [] e i = next_block-Whole hs s.input e refl i
    work-Whole hs (a ∷ rest) e i = act-Whole a rest i

    hear-Whole :
        (c : Channel) (todo : List Action)
        → Whole cfg w goal s.tables.t_blocks s.stages.s_block.queue todo s.block_id s.input
            s.stages.s_block.returned
        → KeepsWhole (hear (with_db cfg) c todo s)
    unfolding hear sent
    hear-Whole c [] i = tt
    hear-Whole c (send d m ∷ rest) i = tt
    hear-Whole c (reply r ∷ rest) i = tt
    hear-Whole c (do_tx b n tx ∷ rest) i = tt
    hear-Whole block_ch (await ∷ rest) i =
        Ends-if_any IsWhole s.stages.s_block.answering _ (retodo cfg w goal i rest refl)
    hear-Whole tx_ch (await ∷ rest) i =
        Ends-if_any IsWhole s.stages.s_tx.answering _ (retodo cfg w goal i rest refl)
    hear-Whole tx_in_ch (await ∷ rest) i =
        Ends-if_any IsWhole s.stages.s_tx_in.answering _ (retodo cfg w goal i rest refl)
    hear-Whole tx_out_ch (await ∷ rest) i =
        Ends-if_any IsWhole s.stages.s_tx_out.answering _ (retodo cfg w goal i rest refl)

    -- The writer of inputs leaves the table of blocks alone.
    ins-Whole :
        (r : Result (TxIdCache × TxInTables)) (st : Stage TxInRec)
        → IsWhole s
        → KeepsWhole
            (elim (elim r as (λ x. Result Tables) [
              | err e ↦ err e
              | ok (c, u) ↦ ok (record s.tables { t_tx_ins = u; cache = c })
            ]) [
              | err e ↦ none
              | ok t ↦ some (record s { tables = t; stages = set_stage tx_in_ch st s.stages })
            ])
    ins-Whole (err e) st i = tt
    ins-Whole (ok (c, u)) st i = i

    take-Whole :
        (c : Channel) (m : Msg (Carried c)) (ms : List (Msg (Carried c)))
        → (stage c s.stages).queue ≡ m ∷ ms
        → (stage c s.stages).returned ≡ false
        → IsWhole s
        → KeepsWhole (write (with_db cfg) c (m ∷ ms) s)
    unfolding write receive
    take-Whole block_ch m ms e h i = rw (h) (write-Whole cfg w goal m (rw (e, h) at i))
    take-Whole tx_ch m ms e h i = i
    take-Whole tx_in_ch m ms e h i =
        ins-Whole
          (write_tx_in true cfg.works cfg.first_import cfg.nil_witness s.tables.cache
            s.tables.t_tx_ins m)
          _ i
    take-Whole tx_out_ch m ms e h i = i

    write-Whole_all :
        (c : Channel) (ms : List (Msg (Carried c)))
        → (stage c s.stages).queue ≡ ms
        → (stage c s.stages).returned ≡ false
        → IsWhole s
        → KeepsWhole (write (with_db cfg) c ms s)
    unfolding write last_commit commit_tx_ins
    write-Whole_all c (m ∷ ms) e h i = take-Whole c m ms e h i
    write-Whole_all block_ch [] e h i = Ends-if_any IsWhole s.closed _ (last-Whole cfg w goal i)
    write-Whole_all tx_ch [] e h i = Ends-if_any IsWhole s.closed _ i
    write-Whole_all tx_in_ch [] e h i = Ends-if_any IsWhole s.closed _ i
    write-Whole_all tx_out_ch [] e h i = Ends-if_any IsWhole s.closed _ i

    step-Whole : (turn : Turn) → IsWhole s → KeepsWhole (step (with_db cfg) turn s)
    unfolding step
    step-Whole (worker hs) i = work-Whole hs s.todo refl i
    step-Whole (answer c) i = hear-Whole c s.todo i
    step-Whole (writer c) i =
        let st = stage c s.stages in
        Ends-else IsWhole (st.answering || st.returned) _
          (λ h. write-Whole_all c st.queue refl (ground arith) i)

  Run-Whole : {n : ℕ} {s t : State} → Run (with_db cfg) n s t → IsWhole s → IsWhole t
  Run-Whole r i = Run-keeps IsWhole (λ s i turn. step-Whole s turn i) r i

-- When all calls of the database work and the blocks that are not ignored come with their heights,
-- then in every state in which all is done, whatever the order of the steps that lead there, the
-- table of blocks has the rows that it had at the start and behind them one row for each of these
-- blocks, in the order in which they came, with its hash and with the numbers that follow the last
-- one. The id, the height, the hash and the parent's hash of each of these rows are the number,
-- the height that came, the hash of the block's header and the hash that the header names. The
-- blocks that are not ignored are all of them, or, with a checker of outputs and a block in the
-- table at the start, those behind the first one with the last hash of the table, and none if no
-- block has it.
pub all_written :
    (cfg : Config) (block_id tx_id : ℕ) (hs : Heights) (t : Tables) (bs : List BlockRecSync) {n : ℕ}
    {s : State}
    → ((name : TableName) (k : ℕ) → cfg.works name k ≡ true)
    → HaveHeights (to_write cfg.sha256 (is_some cfg.utxo) hs bs)
    → Run (with_db cfg) n (start (with_db cfg) block_id tx_id hs t bs) s
    → IsDone s
    → let kept = to_write cfg.sha256 (is_some cfg.utxo) hs bs in
      let written = map block_row (numbered cfg.sha256 block_id kept) in
      (s.tables.t_blocks.committed ≡ t.t_blocks.committed ++ written)
      × (map columns written ≡ named cfg.sha256 block_id kept)
      × IsKept cfg.sha256 (is_some cfg.utxo) hs bs kept
unfolding start begin_all begin rows sent numbered
all_written cfg block_id tx_id hs t bs {s = s} w h r done =
    let bs' = to_write cfg.sha256 (is_some cfg.utxo) hs bs in
    let i =
      Run-Whole cfg w (t.t_blocks.committed ++ map block_row (numbered cfg.sha256 block_id bs')) r
        (record {
          opened = Works.begin-open (cfg.works blocks) (w blocks) t.t_blocks;
          heights = h;
          total = refl;
          emptied = λ h. absurd (cc);
        }) in
    let (input, todo, closed, each) = done in
    let (returned, queue) = each block_ch in
    let e = i.emptied returned in
    (
      sym (append-nil _) ∙ (rw (input, todo, queue, e) at i.total),
      columns-numbered cfg.sha256 block_id bs',
      to_write-IsKept cfg.sha256 (is_some cfg.utxo) hs bs,
    )
