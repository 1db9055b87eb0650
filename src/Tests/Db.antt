-- ===== src/Tests/Db.antt =====
-- db/postgres.go at concrete inputs: a block with two transactions goes through the goroutines.
use blkchain.Prelude.{
  suc, ◌+◌, ◌≡◌, ◌≤◌, refl, Bool, true, false, Option, none, some, List, [], ◌∷◌, ◌++◌, map, length,
  replicate, ◌⊎◌, bytes_eq, inl,
}
use blkchain.Uint256.{sha_sha256}
use blkchain.KeyMap
use blkchain.KeyMap.{KeyMap}
use blkchain.Tx
use blkchain.TxIdCache
use blkchain.TxIdCache.{new_tx_id_cache}
use blkchain.Block.{Block}
use blkchain.Db.{BlockRec, BlockRecSync, TxRec, row, commit_signal}
use blkchain.Db.Table
use blkchain.Db.Writers
use blkchain.Db.Writers.{
  TableName, no_table, block_row, tx_row, block_tx_row, tx_out_row, block_writer, tx_writer,
  tx_out_writer,
}
use blkchain.Db.Writers.Complete.{rows, fresh, writers_complete}
use blkchain.Db.Worker
use blkchain.Db.Worker.{Channel, block_ch, tx_ch, tx_in_ch, tx_out_ch}
use blkchain.Db.System
use blkchain.Db.System.{
  Config, Tables, State, Turn, worker, writer, answer, step, is_some, Run, stop, later, start,
}
use blkchain.Db.System.Progress.{IsDone, CanStep, never-stuck}
use blkchain.Db.System.Bounded.{Run-bounded}
use blkchain.Db.System.Costs.{steps_left}
use blkchain.Db.System.ForeignKeys.Holds.{RefersToRows, foreign_keys}
use blkchain.Db.System.Numbered.{numbered}
use blkchain.Db.System.Numbered.Columns.{columns, named, IsKept}
use blkchain.Db.System.Numbered.Written.{all_written}
use blkchain.BlockHeader
use blkchain.Tests.Data.{hash_of, header, plain_tx, tx}

program : Unit {0}
unfolding KeyMap.get KeyMap.put KeyMap.delete new_tx_id_cache TxIdCache.look_recent
    TxIdCache.next_slot TxIdCache.take_slot TxIdCache.add_ring TxIdCache.check_size
    TxIdCache.add_big TxIdCache.add TxIdCache.check Table.calls_ok Table.begin Table.exec
    Table.commit Writers.write_block Writers.write_tx Writers.write_tx_in Writers.write_tx_out
    Writers.commit_tx_ins Writers.miss_calls Writers.note_miss Writers.lookup_prevout
    Writers.tx_in_row Worker.tx_actions Worker.in_actions Worker.out_actions Worker.commit_actions
    Worker.first_import_actions Worker.end_actions Worker.connected_actions Worker.block_actions
    Worker.height_of Worker.transaction Worker.to_write System.receive System.last_commit
    System.next_block System.act System.work System.hear System.write System.step System.begin_all
    System.start bytes_eq Tx.hash sha_sha256 block_row
program = tt

abbrev config : Config
config = record {
  has_db = true;
  works = λ name n. true;
  first_import = false;
  nil_witness = λ t. false;
  utxo = none;
  first = λ m. none;
  sha256 = λ bs. replicate 32 7;
}

abbrev empty : Tables
empty = record {
  t_blocks = no_table;
  t_txs = record { txs = no_table; block_txs = no_table };
  t_tx_ins = record { txins = no_table; misses = []; fixed = []; direct = []; direct_calls = 0 };
  t_tx_outs = no_table;
  cache = new_tx_id_cache 5;
}

abbrev block : Block
block = record { magic = 0; block_header = header; txs = plain_tx ∷ [] }

abbrev block_rec : BlockRec
block_rec = record { block = block; id = 0; height = some 3; hash = hash_of 1; orphan = false }

abbrev tx_rec : Bool → TxRec
tx_rec dupe = record { id = 1; block_id = 1; n = 0; tx = tx; hash = hash_of 2; dupe = dupe }

abbrev calls : List BlockRecSync
calls = record { rec = block_rec; sync = true } ∷ []

abbrev first_state : State
first_state = start config 0 0 [] empty calls

-- The turns that go on, one after the other.
advance : List Turn → State → State
advance [] s = s
advance (turn ∷ turns) s = elim (step config turn s) [ none ↦ s | some t ↦ advance turns t ]

goes : List Turn → State → Bool
goes [] s = true
goes (turn ∷ turns) s = elim (step config turn s) [ none ↦ false | some t ↦ goes turns t ]

advance-Run :
    (turns : List Turn) (s : State)
    → goes turns s ≡ true
    → Run config (length turns) s (advance turns s)
unfolding goes advance
advance-Run [] s h = stop
advance-Run (turn ∷ turns) s h = go (advance-Run turns) (step config turn s) refl h
  where
    go :
        ((t : State) → goes turns t ≡ true → Run config (length turns) t (advance turns t))
        → (o : Option State) → step config turn s ≡ o
        → (elim o [ none ↦ false | some t ↦ goes turns t ]) ≡ true
        → Run config (suc (length turns)) s (elim o [ none ↦ s | some t ↦ advance turns t ])
    go on none e h = absurd (cc)
    go on (some t) e h = later turn e (on t h)

-- The worker sends the block and the first signal, and waits; the writer of blocks has not begun.
abbrev waiting : List Turn
waiting = worker [] ∷ worker [] ∷ worker [] ∷ worker [] ∷ worker [] ∷ worker [] ∷ worker [] ∷ []

waits : goes waiting first_state ≡ true
unfolding program goes
waits = refl

never-stuck_example :
    IsDone (advance waiting first_state) ⊎ CanStep config (advance waiting first_state)
never-stuck_example =
    never-stuck config 0 0 [] empty calls (inl refl) (advance-Run waiting first_state waits)

Run-bounded_example : 7 + steps_left (advance waiting first_state) ≤ steps_left first_state
Run-bounded_example = Run-bounded (advance-Run waiting first_state waits)

abbrev served : Channel → List Turn
served c = writer c ∷ writer c ∷ answer c ∷ []

abbrev to_end : List Turn
to_end =
    waiting
    ++ served block_ch
    ++ worker [] ∷ served tx_ch
    ++ worker [] ∷ served tx_out_ch
    ++ worker [] ∷ served tx_in_ch
    ++ worker []
      ∷ worker []
      ∷ writer block_ch
      ∷ writer tx_ch
      ∷ writer tx_in_ch
      ∷ writer tx_out_ch
      ∷ []

-- The whole run, whose caller is told of the success.
to_end-goes : goes to_end first_state ≡ true
unfolding program goes
to_end-goes = refl

told : (advance to_end first_state).replies ≡ true ∷ []
unfolding program advance
told = refl

written :
    (map (λ r. r.tx_id) (advance to_end first_state).tables.t_tx_ins.txins.committed ≡ 1 ∷ [])
    × (map (λ r. r.id) (advance to_end first_state).tables.t_blocks.committed ≡ 1 ∷ [])
unfolding program advance
written = (refl, refl)

writers_complete_example :
    ((block_writer true (λ n k. true) (row block_rec ∷ commit_signal true ∷ [])).committed
      ≡ map block_row (rows (row block_rec ∷ commit_signal true ∷ [])))
    × ((tx_writer true
          (λ n k. true)
          (row (tx_rec false) ∷ commit_signal false ∷ row (tx_rec true) ∷ [])).txs.committed
        ≡ map tx_row
            (fresh (rows (row (tx_rec false) ∷ commit_signal false ∷ row (tx_rec true) ∷ []))))
    × ((tx_writer true
          (λ n k. true)
          (row (tx_rec false) ∷ commit_signal false ∷ row (tx_rec true) ∷ [])).block_txs.committed
        ≡ map block_tx_row
            (rows (row (tx_rec false) ∷ commit_signal false ∷ row (tx_rec true) ∷ [])))
    × ((tx_out_writer true (λ n k. true) none []).committed ≡ map (tx_out_row none) (rows []))
writers_complete_example =
    writers_complete (λ n k. true) (λ n k. refl) none (row block_rec ∷ commit_signal true ∷ [])
      (row (tx_rec false) ∷ commit_signal false ∷ row (tx_rec true) ∷ []) []

foreign_keys_example : RefersToRows (advance to_end first_state).tables
foreign_keys_example =
    foreign_keys config 0 0 [] empty calls (λ n k. refl) ((λ k h. h), ((λ k h. h), (λ k h. h)))
      (advance-Run to_end first_state to_end-goes)

to_end-each :
    (c : Channel)
    → ((System.stage c (advance to_end first_state).stages).returned ≡ true)
      × ((System.stage c (advance to_end first_state).stages).queue ≡ [])
unfolding program advance
to_end-each block_ch = (refl, refl)
to_end-each tx_ch = (refl, refl)
to_end-each tx_in_ch = (refl, refl)
to_end-each tx_out_ch = (refl, refl)

to_end-IsDone : IsDone (advance to_end first_state)
unfolding program advance
to_end-IsDone = (refl, refl, refl, to_end-each)

all_written_example :
    let written = map block_row (numbered config.sha256 0 calls) in
    ((advance to_end first_state).tables.t_blocks.committed ≡ [] ++ written)
    × (map columns written ≡ named config.sha256 0 calls)
    × IsKept config.sha256 false [] calls calls
unfolding Worker.to_write
all_written_example =
    all_written config 0 0 [] empty calls (λ n k. refl) ((3, refl), tt)
      (advance-Run to_end first_state to_end-goes) to_end-IsDone

-- With a checker of outputs, the blocks up to the last one of the table are ignored.
ignored_first :
    Worker.to_write config.sha256 true ((2, hash_of 9 ∷ replicate 32 7 ∷ []) ∷ []) (calls ++ calls)
    ≡ calls
unfolding program Worker.to_write Worker.ignore_up_to Worker.top_hash Worker.last_hash
    BlockHeader.hash
ignored_first = refl
